-- ===== src/Memory/Path.antt =====
-- internal/ai/memory.go: the directory name that `sanitise` makes of a persona's name.
use distributed_multi_agent.Base.{
  ◌≡◌, ◌≢◌, refl, [], ◌∷◌, true, All, Bytes, Bytes-discrete, arith, Bool-cases, inl, inr, if_pos,
  if_neg,
}
use distributed_multi_agent.Memory.{is_safe, safe_bytes, sanitise}

safe_bytes_safe : (name : Bytes) → All (λ c. is_safe c ≡ true) (safe_bytes name)
unfolding safe_bytes
safe_bytes_safe [] = tt
safe_bytes_safe (c ∷ cs) = elim (Bool-cases (is_safe c)) [
  | inl e ↦ rw e (e, safe_bytes_safe cs)
  | inr e ↦ rw e (safe_bytes_safe cs)
]

-- The directory name that `sanitise` makes of any persona's name is not empty and holds letters,
-- digits, `-` and `_` only, so that it names a directory below that of the personas.
pub sanitise_safe :
    (name : Bytes) → (sanitise name ≢ []) × All (λ c. is_safe c ≡ true) (sanitise name)
unfolding sanitise is_safe
sanitise_safe name = elim (Bytes-discrete (safe_bytes name) []) [
  | yes e ↦
      rw (if_pos _ e)
        (λ h. ground arith, (refl, (refl, (refl, (refl, (refl, (refl, (refl, tt))))))))
  | no ne ↦ rw (if_neg _ ne) (ne, safe_bytes_safe name)
]
