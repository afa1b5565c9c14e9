-- ===== src/TaskList/Paging.antt =====
-- celery_root/components/web/views/tasks.py: the pages of a list of rows.
use celery_cnc.Base.{
  ℕ, zero, suc, ◌+◌, ◌-◌, ◌*◌, ◌≤◌, ◌<◌, min, ◌≡◌, refl, sym, ap, ◌∙◌, subst, arith,
}
use celery_cnc.Base.{List, [], ◌∷◌, ◌++◌, length, nat_eq}
use celery_cnc.TaskList.{take, drop, page_slice, total_pages, visible_range}

ceil_enough : (size count : ℕ) → 0 < size → count ≤ total_pages size count * size
unfolding total_pages
ceil_enough size count h = grind arith

start_within :
    (size count page : ℕ)
    → 0 < size
    → 0 < count
    → 0 < page
    → page ≤ total_pages size count
    → (page - 1) * size < count
unfolding total_pages
start_within size count page hs hc hp h = grind arith

range_shown :
    (size page count shown : ℕ)
    → 0 < count
    → visible_range size page count shown
      ≡ ((page - 1) * size + 1, (page - 1) * size + 1 + (shown - 1))
unfolding visible_range
range_shown size page count shown h = ground arith

-- The range beside a page, on numbers.
range_numbers :
    (start size count rows : ℕ)
    → 0 < size
    → start < count
    → rows ≡ min size (count - start)
    → (rows ≤ size)
      × (0 < start + 1)
      × (start + 1 + rows ≡ start + 1 + (rows - 1) + 1)
      × (start + 1 + (rows - 1) ≤ count)
range_numbers start size count rows hs h e = (omega arith, omega arith, omega arith, omega arith)

module _ {ℓ} {A : Type ℓ} where
  -- The rows of the first pages, one page after the other.
  unfoldable pub first_pages : ℕ → ℕ → List A → List A
  unfolding page_slice
  first_pages page_size zero tasks = []
  first_pages page_size (suc k) tasks =
      first_pages page_size k tasks ++ page_slice page_size (suc k) tasks

  take_nil : (n : ℕ) → take {A = A} n [] ≡ []
  take_nil zero = refl
  take_nil (suc n) = refl

  take-append-take : (m n : ℕ) (xs : List A) → take m xs ++ take n (drop m xs) ≡ take (m + n) xs
  take-append-take zero n xs = ap (λ k. take k xs) (omega arith)
  take-append-take (suc m) n [] = take_nil n ∙ sym (take_nil (suc m + n))
  take-append-take (suc m) n (x ∷ xs) =
      ap (λ r. x ∷ r) (take-append-take m n xs)
      ∙ ap (λ k. take k (x ∷ xs)) (let e : suc (m + n) ≡ suc m + n = omega arith in e)

  take_all : (n : ℕ) (xs : List A) → length xs ≤ n → take n xs ≡ xs
  take_all zero [] h = refl
  take_all zero (x ∷ xs) h = absurd (omega arith)
  take_all (suc n) [] h = refl
  take_all (suc n) (x ∷ xs) h = ap (λ r. x ∷ r) (take_all n xs (omega arith))

  length-take : (n : ℕ) (xs : List A) → length (take n xs) ≤ n
  length-take zero xs = omega arith
  length-take (suc n) [] = omega arith
  length-take (suc n) (x ∷ xs) = omega (arith, length-take n xs)

  length-take-drop : (m n : ℕ) (xs : List A) → length (take n (drop m xs)) ≡ min n (length xs - m)
  length-take-drop m zero xs = omega arith
  length-take-drop zero (suc n) [] = omega arith
  length-take-drop (suc m) (suc n) [] = omega arith
  length-take-drop zero (suc n) (x ∷ xs) = omega (arith, length-take-drop zero n xs)
  length-take-drop (suc m) (suc n) (x ∷ xs) = omega (arith, length-take-drop m (suc n) xs)

  first_pages-take :
      (page_size k : ℕ) (tasks : List A)
      → first_pages page_size k tasks ≡ take (k * page_size) tasks
  unfolding first_pages
  first_pages-take page_size zero tasks =
      ap (λ n. take n tasks) (let e : 0 ≡ 0 * page_size = omega arith in e)
  first_pages-take page_size (suc k) tasks =
      ap (λ r. r ++ take page_size (drop ((suc k - 1) * page_size) tasks))
        (first_pages-take page_size k tasks)
      ∙ ap (λ n. take (k * page_size) tasks ++ take page_size (drop (n * page_size) tasks))
          (let e : suc k - 1 ≡ k = omega arith in e)
      ∙ take-append-take (k * page_size) page_size tasks
      ∙ ap (λ n. take n tasks)
          (let e : k * page_size + page_size ≡ suc k * page_size = grind arith in e)

  -- For a page size above 0 and a list with rows, and any page that there is: the pages, one after the
  -- other, are all the rows; the page has no more rows than the page size; and the range of numbers
  -- that is shown beside it starts above 0, holds as many numbers as the page has rows, and ends
  -- within the list.
  pub first_pages-total_pages :
      (page_size page : ℕ) (tasks : List A)
      → 0 < page_size
      → 0 < length tasks
      → 0 < page
      → page ≤ total_pages page_size (length tasks)
      → let rows = page_slice page_size page tasks in
        let range = visible_range page_size page (length tasks) (length rows) in
        (first_pages page_size (total_pages page_size (length tasks)) tasks ≡ tasks)
        × (length rows ≤ page_size)
        × (0 < range.0)
        × (range.0 + length rows ≡ range.1 + 1)
        × (range.1 ≤ length tasks)
  unfolding page_slice
  first_pages-total_pages page_size page tasks hs hc hp h =
      let start = (page - 1) * page_size in
      let rows = page_slice page_size page tasks in
      let (a, b, c, d) =
        range_numbers start page_size (length tasks) (length rows) hs
          (start_within page_size (length tasks) page hs hc hp h)
          (length-take-drop start page_size tasks) in
      subst
        (λ range.
          (first_pages page_size (total_pages page_size (length tasks)) tasks ≡ tasks)
          × (length rows ≤ page_size)
          × (0 < range.0)
          × (range.0 + length rows ≡ range.1 + 1)
          × (range.1 ≤ length tasks))
        (sym (range_shown page_size page (length tasks) (length rows) hc))
        (
          first_pages-take page_size (total_pages page_size (length tasks)) tasks
              ∙ take_all (total_pages page_size (length tasks) * page_size) tasks
                  (ceil_enough page_size (length tasks) hs),
          a,
          b,
          c,
          d,
        )
