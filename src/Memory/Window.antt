-- ===== src/Memory/Window.antt =====
-- internal/ai/memory.go: which memories a store holds, and that its file holds the same ones.
use distributed_multi_agent.Base.{
  ℕ, zero, suc, ◌+◌, ◌-◌, ◌≤◌, ◌≡◌, refl, sym, ap, ◌∙◌, List, [], ◌∷◌, ◌++◌, some, arith,
  Bool-cases, inl, inr, ltb, length, length-append, length-drop, drop, Bytes, ok,
}
use distributed_multi_agent.Memory.{Disk, Memory, MemoryStore, append_memory, load, remember, save}
use mathlib.Core.List.{append_assoc, append-nil}

-- The last `n` elements.
abbrev pub last : {A : Type 0} → ℕ → List A → List A
last n xs = drop (length xs - n) xs

drop_append :
    {A : Type 0} (k : ℕ) (ys zs : List A) → k ≤ length ys → drop k ys ++ zs ≡ drop k (ys ++ zs)
unfolding drop
drop_append zero ys zs le = refl
drop_append (suc k) [] zs le = absurd (omega arith)
drop_append (suc k) (y ∷ ys) zs le = drop_append k ys zs (omega arith)

drop_nil : {A : Type 0} (n : ℕ) → [] ≡ drop {A = A} n []
unfolding drop
drop_nil zero = refl
drop_nil (suc n) = refl

drop-drop : {A : Type 0} (i j : ℕ) (xs : List A) → drop i (drop j xs) ≡ drop (j + i) xs
unfolding drop
drop-drop i zero xs = ap (λ m. drop m xs) (omega arith)
drop-drop zero (suc j) [] = drop_nil (suc j + 0)
drop-drop (suc i) (suc j) [] = drop_nil (suc j + suc i)
drop-drop i (suc j) (x ∷ xs) =
    let e : suc (j + i) ≡ suc j + i = omega arith in drop-drop i j xs ∙ ap (λ m. drop m (x ∷ xs)) e

-- What is not among the last `n` now never is again.
last-last : {A : Type 0} (n : ℕ) (ys zs : List A) → last n (last n ys ++ zs) ≡ last n (ys ++ zs)
last-last n ys zs =
    let k = length ys - n in
    let shorter = drop_append k ys zs (omega arith) in
    ap (λ xs. last n xs) shorter
    ∙ drop-drop (length (drop k (ys ++ zs)) - n) k (ys ++ zs)
    ∙ ap (λ m. drop m (ys ++ zs)) (omega (arith, length-drop k (ys ++ zs), length-append ys zs))

append_memory-last :
    (ms : MemoryStore) (m : Memory)
    → append_memory ms m ≡ last ms.max_items (ms.memories ++ (m ∷ []))
unfolding append_memory drop
append_memory-last ms m = elim (Bool-cases (ltb ms.max_items (length (ms.memories ++ (m ∷ []))))) [
  | inl e ↦ rw e refl
  | inr e ↦
      let none_over : length (ms.memories ++ (m ∷ [])) - ms.max_items ≡ 0 = ground arith in
      rw (e, none_over) refl
]

module _ (d : Disk) where
  -- `Add` for each of the memories.
  unfoldable pub remember_all : MemoryStore → List Memory → MemoryStore
  remember_all ms [] = ms
  remember_all ms (m ∷ rest) = remember_all (remember d ms m) rest

  remember_reads :
      (ms : MemoryStore) (m : Memory)
      → ((remember d ms m).memories ≡ append_memory ms m)
        × ((remember d ms m).max_items ≡ ms.max_items)
  unfolding remember save
  remember_reads ms m = ground arith

  -- `Add` leaves no more memories than the limit allows.
  remember_within :
      (ms : MemoryStore) (m : Memory)
      → length (remember d ms m).memories ≤ (remember d ms m).max_items
  remember_within ms m =
      let (reads, same_max) = remember_reads ms m in
      let all = ms.memories ++ (m ∷ []) in
      let shorter = length-drop (length all - ms.max_items) all in
      omega (arith, ap (λ xs. length xs) (reads ∙ append_memory-last ms m), same_max, shorter)

  -- The store is a sliding window: after any memories are added, it holds the last ones of those it
  -- held and those added, as many as the limit allows, in their order.
  pub remember_all-last :
      (ms : MemoryStore) (added : List Memory)
      → length ms.memories ≤ ms.max_items
      → (remember_all ms added).memories ≡ last ms.max_items (ms.memories ++ added)
  unfolding remember_all drop
  remember_all-last ms [] within =
      let none_over : length (ms.memories ++ []) - ms.max_items ≡ 0 =
        omega (arith, length-append ms.memories []) in
      rw none_over (sym (append-nil ms.memories))
  remember_all-last ms (m ∷ rest) within =
      let ms' = remember d ms m in
      let (reads, same_max) = remember_reads ms m in
      let window = reads ∙ append_memory-last ms m in
      remember_all-last ms' rest (remember_within ms m)
      ∙ ap (λ n. last n (ms'.memories ++ rest)) same_max
      ∙ ap (λ xs. last ms.max_items (xs ++ rest)) window
      ∙ last-last ms.max_items (ms.memories ++ (m ∷ [])) rest
      ∙ ap (λ xs. last ms.max_items xs) (append_assoc ms.memories (m ∷ []) rest)

  -- If the file system keeps what is written, and decoding inverts encoding, a store that is opened on
  -- the file after `Add` holds the memories of the store that wrote it.
  pub load-remember :
      (ms : MemoryStore) (m : Memory) (text : Bytes)
      → d.encode (append_memory ms m) ≡ ok text
      → d.decode text ≡ append_memory ms m
      → d.write ms.file text ≡ some text
      → (load d (record (remember d ms m) { memories = [] })).memories ≡ (remember d ms m).memories
  unfolding load remember save
  load-remember ms m text encoded decoded written = ground arith
