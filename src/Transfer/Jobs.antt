-- ===== src/Transfer/Jobs.antt =====
-- The job list of HW4/mydatastructure.c: an array of a fixed size, used as a stack. Its struct has
-- the fields of the growing arrays.
use cmpe156_network_programm.Prelude.{
  ℕ, ◌+◌, ◌-◌, ◌≡◌, ◌<◌, refl, sym, ap, List, [], ◌∷◌, ◌++◌, append_assoc, append-nil, arith,
  Option, none, some, Result, ok, fault, out_of_bounds, ◌>>=◌, load, store, length, length-append,
  length-replicate, replicate, map, ℤ, pos, negsuc, ◌==◌, if◌then◌else◌,
}
use cmpe156_network_programm.Libc.Str.{Bytes}
use cmpe156_network_programm.DynArray.{Cell, null, ref, DynArray, pointer, remove_item}
use cmpe156_network_programm.DynArray.Cells.{store-append, store_past, load-append}
use cmpe156_network_programm.DynArray.Refine.{Holds, refs-append, length-refs, remove_item-Holds}

-- job_item_t
pub record Job : Type 0 where
  pub job_id : ℕ
  pub file_name : Bytes
  pub file_start : ℤ
  pub file_end : ℤ

abbrev pub JobList : Type 0
JobList = DynArray Job

unfoldable pub init_job_array : ℕ → JobList
init_job_array job_size = record { array = replicate job_size null; occupied = 0; size = job_size }

-- There is no test of the index.
unfoldable pub get_job_item : JobList → ℤ → Result (Option Job)
get_job_item a (pos idx) = load a.array idx >>= λ c. pointer c
get_job_item a (negsuc idx) = fault out_of_bounds

-- There is no test of the size.
unfoldable pub add_job_item : JobList → Job → Result JobList
add_job_item a item = store a.array a.occupied (ref item) >>= λ cells.
    ok (record a { array = cells; occupied = a.occupied + 1 })

unfoldable pub remove_job_item : JobList → ℤ → Result JobList
remove_job_item a idx = remove_item a idx

unfoldable pub push_job_item : JobList → Job → Result JobList
push_job_item a item = add_job_item a item

unfoldable pub pop_job_item : JobList → Result (Option Job × JobList)
pop_job_item a =
    if a.occupied == 0
    then ok (none, a)
    else (get_job_item a (pos (a.occupied - 1)) >>= λ n.
        remove_job_item a (pos (a.occupied - 1)) >>= λ b. ok (n, b))

unfoldable pub peek_job_item : JobList → Result (Option Job)
peek_job_item a = if a.occupied == 0 then ok none else get_job_item a (pos (a.occupied - 1))

abbrev null_cell : Cell Job
null_cell = null

-- A new list holds nothing.
pub init_job_array-Holds : (n : ℕ) → Holds (init_job_array n) []
unfolding init_job_array
init_job_array-Holds n = record {
  spare = replicate n null;
  cells = refl;
  counted = refl;
  allocated = omega (arith, length-replicate n null_cell);
}

-- Adding to a job list that holds fewer jobs than its size puts the job behind the others and
-- keeps the size.
pub add_job_item-Holds :
    (a : JobList) (js : List Job) (j : Job)
    → Holds a js
    → length js < a.size
    → (b : JobList) × (add_job_item a j ≡ ok b) × Holds b (js ++ j ∷ []) × (b.size ≡ a.size)
add_job_item-Holds a js j h f = go h.spare h.cells h.allocated
  where
    go :
        (spare : List (Cell Job))
        → a.array ≡ map ref js ++ spare
        → a.size ≡ length js + length spare
        → (b : JobList) × (add_job_item a j ≡ ok b) × Holds b (js ++ j ∷ []) × (b.size ≡ a.size)
    go [] hc hs = absurd (omega arith)
    go (c ∷ spare) hc hs = (
      record a { array = map ref js ++ ref j ∷ spare; occupied = a.occupied + 1 },
      unfold add_job_item in
          ground (
            arith,
            h.counted,
            store-append (map ref js) c spare (length js) (ref j) (sym (length-refs js)),
          ),
      record {
        spare = spare;
        cells = rw (refs-append js (j ∷ []), append_assoc (map ref js) (ref j ∷ []) spare);
        counted = omega (arith, length-append js (j ∷ []), h.counted);
        allocated = omega (arith, length-append js (j ∷ []));
      },
      refl,
    )

-- Adding to a job list that holds as many jobs as its size writes behind the array.
pub add_job_item_full :
    (a : JobList) (js : List Job) (j : Job)
    → Holds a js
    → a.size ≡ length js
    → add_job_item a j ≡ fault out_of_bounds
unfolding add_job_item
add_job_item_full a js j h f = ground (
  arith,
  store_past a.array a.occupied (ref j) (
      omega (
        arith,
        ap length h.cells,
        length-append (map ref js) h.spare,
        length-refs js,
        h.counted,
        h.allocated,
      )),
)

get_top :
    (a : JobList) (js : List Job) (j : Job)
    → Holds a (js ++ j ∷ [])
    → get_job_item a (pos (a.occupied - 1)) ≡ ok (some j)
unfolding get_job_item
get_top a js j h = ground (
  arith,
  h.counted,
  length-append js (j ∷ []),
  refs-append js (j ∷ []),
  append_assoc (map ref js) (ref j ∷ []) h.spare,
  load-append (map ref js) (ref j) h.spare (a.occupied - 1),
  length-refs js,
)

-- Popping from a job list that is not empty gives the job added last and a list that holds the
-- others.
pub pop_job_item-Holds :
    (a : JobList) (js : List Job) (j : Job)
    → Holds a (js ++ j ∷ [])
    → (b : JobList) × (pop_job_item a ≡ ok (some j, b)) × Holds b js
unfolding pop_job_item remove_job_item
pop_job_item-Holds a js j h =
    let sized = length-append js (j ∷ []) in
    let (b, e, hb) =
      remove_item-Holds a js j [] (a.occupied - 1) h (omega (arith, h.counted, sized)) in
    (b, ground (arith, h.counted, sized, get_top a js j h, e), rw append-nil at hb)

remove_item-size : (a b : JobList) (z : ℤ) → remove_item a z ≡ ok b → b.size ≡ a.size
unfolding remove_item
remove_item-size a b (pos i) e = ground arith
remove_item-size a b (negsuc i) e = ground arith

-- Popping keeps the size.
pub pop_job_item-size :
    (a b : JobList) (o : Option Job) → pop_job_item a ≡ ok (o, b) → b.size ≡ a.size
unfolding pop_job_item remove_job_item
pop_job_item-size a b o e = ground (arith, remove_item-size a b (pos (a.occupied - 1)))

-- An empty list gives NULL.
pub pop_job_item_empty : (a : JobList) → Holds a [] → pop_job_item a ≡ ok (none, a)
unfolding pop_job_item
pop_job_item_empty a h = ground (arith, h.counted)

-- Peeking shows what popping would give.
pub peek_job_item-Holds :
    (a : JobList) (js : List Job) (j : Job) → Holds a (js ++ j ∷ []) → peek_job_item a ≡ ok (some j)
unfolding peek_job_item
peek_job_item-Holds a js j h =
    ground (arith, h.counted, length-append js (j ∷ []), get_top a js j h)
