-- ===== src/RxQueue/Window.antt =====
-- The live window [head, chunks.length) of the backing array in src/lib/serial-rx-queue.ts, and its
-- representation invariant.
use bbcom.Base.{
  ℕ, zero, suc, ◌+◌, ◌-◌, ◌≤◌, ◌≡◌, refl, sym, ap, ◌∙◌, some, List, [], ◌∷◌, ◌++◌, map, length,
  get_elem?, drop, length-drop,
}
use bbcom.RxQueue.{Bytes, RxQueue}
use bbcom.RxQueue.Policy.{total}

-- The queue `q` holds the chunks `cs`, oldest first.
pub record Holds (q : RxQueue) (cs : List Bytes) : Type 0 where
  pub in_array : q.head ≤ length q.chunks
  pub window : drop q.head q.chunks ≡ map some cs
  pub counted : q.byte_length ≡ total cs

-- The limits that the class keeps between calls.
pub record IsValid (q : RxQueue) (cs : List Bytes) : Type 0 where
  pub holds : Holds q cs
  pub bytes_positive : 1 ≤ q.max_bytes
  pub chunks_positive : 1 ≤ q.max_chunks
  pub bytes_bounded : total cs ≤ q.max_bytes
  pub chunks_bounded : length cs ≤ q.max_chunks
  -- the dead prefix is at most half of the array
  pub compact : q.head + q.head ≤ length q.chunks

module _ {ℓ} {A : Type ℓ} where
  pub get_elem?-drop :
      (n : ℕ) (xs : List A) (y : A) (ys : List A) → drop n xs ≡ y ∷ ys → get_elem? xs n ≡ some y
  get_elem?-drop zero [] y ys e = cc
  get_elem?-drop (suc n) [] y ys e = cc
  get_elem?-drop zero (x ∷ xs) y ys e = cc
  get_elem?-drop (suc n) (x ∷ xs) y ys e = get_elem?-drop n xs y ys e

  pub drop-suc :
      (n : ℕ) (xs : List A) (y : A) (ys : List A) → drop n xs ≡ y ∷ ys → drop (suc n) xs ≡ ys
  drop-suc zero [] y ys e = cc
  drop-suc (suc n) [] y ys e = cc
  drop-suc zero (x ∷ xs) y ys e = cc
  drop-suc (suc n) (x ∷ xs) y ys e = drop-suc n xs y ys e

  pub length-map-some : (xs : List A) → length (map some xs) ≡ length xs
  length-map-some [] = refl
  length-map-some (x ∷ xs) = ap suc (length-map-some xs)

  pub map-some-snoc : (xs : List A) (y : A) → map some (xs ++ y ∷ []) ≡ map some xs ++ some y ∷ []
  map-some-snoc [] y = refl
  map-some-snoc (x ∷ xs) y = ap (◌∷◌ (some x)) (map-some-snoc xs y)

-- The live count is the number of chunks held.
pub live_count-Holds :
    {q : RxQueue} {cs : List Bytes} → Holds q cs → length q.chunks - q.head ≡ length cs
live_count-Holds {q} {cs} h =
    sym (length-drop q.head q.chunks) ∙ ap length h.window ∙ length-map-some cs
