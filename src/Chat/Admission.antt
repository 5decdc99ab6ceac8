-- ===== src/Chat/Admission.antt =====
-- Which messages `AddWithReason` of internal/chat/ledger.go lets in, and what it remembers of them.
use distributed_multi_agent.Base.{
  ℕ, ◌<◌, ◌≡◌, ◌≢◌, ◌↔◌, ◌⊎◌, inl, inr, [], Bool, true, false, Option, none, some, ite, arith, ltb,
  if◌then◌else◌, Bytes, Bytes-discrete, get, at, has, get-put, Bool-cases, Option-cases,
}
use distributed_multi_agent.Chat.{
  Ledger, accept, add_with_reason, chain_key, evict, forks, own_clock, record_message, regresses,
  duplicate_message, invalid_message, clock_regression, equivocation_fork,
}
use distributed_multi_agent.Types.{Message}
use distributed_multi_agent.Unicode.{Unicode}

-- The counter of the sender's own clock has not been used by it, nor passed.
abbrev pub IsForward : Ledger → Message → Type 0
IsForward l msg =
    (own_clock msg ≡ 0)
    ⊎ ((prev : ℕ) → get l.sender_clock msg.sender_id ≡ some prev → prev < own_clock msg)

-- No other message of the sender is known to follow the same predecessor.
abbrev pub IsUnforked : Ledger → Message → Type 0
IsUnforked l msg =
    (msg.prev_hash ≡ [])
    ⊎ ((id : Bytes) → get l.prev_hash_by_sender (chain_key msg) ≡ some id → id ≡ msg.id)

pub record IsAdmissible (l : Ledger) (msg : Message) : Type 0 where
  pub named : msg.id ≢ []
  pub fresh : has l.ids msg.id ≡ false
  pub forward : IsForward l msg
  pub unforked : IsUnforked l msg

regresses-IsForward : (l : Ledger) (msg : Message) → regresses l msg ≡ false → IsForward l msg
unfolding regresses
regresses-IsForward l msg e = elim (Bool-cases (ltb 0 (own_clock msg))) [
  | inl pos ↦ inr (λ prev h. ground arith)
  | inr z ↦ inl (ground arith)
]

IsForward-regresses : (l : Ledger) (msg : Message) → IsForward l msg → regresses l msg ≡ false
unfolding regresses
IsForward-regresses l msg (inl z) = ground arith
IsForward-regresses l msg (inr f) = elim (Option-cases (get l.sender_clock msg.sender_id)) [
  | inl e ↦ ground arith
  | inr (prev, e) ↦ ground (arith, f prev e)
]

forks-IsUnforked : (l : Ledger) (msg : Message) → forks l msg ≡ false → IsUnforked l msg
unfolding forks
forks-IsUnforked l msg e = elim (Bytes-discrete msg.prev_hash []) [
  | yes p ↦ inl p
  | no n ↦ inr (λ id h. ground arith)
]

IsUnforked-forks : (l : Ledger) (msg : Message) → IsUnforked l msg → forks l msg ≡ false
unfolding forks
IsUnforked-forks l msg (inl z) = ground arith
IsUnforked-forks l msg (inr f) = elim (Option-cases (get l.prev_hash_by_sender (chain_key msg))) [
  | inl e ↦ ground arith
  | inr (id, e) ↦ ground (arith, f id e)
]

module _ (u : Unicode) where
  -- `AddWithReason` takes a message exactly when the message has an ID that the ledger does not
  -- hold, its own counter is zero or above the last one taken from that sender, and no other
  -- message of the sender is known to follow the same predecessor.
  pub add_with_reason_iff :
      (l : Ledger) (msg : Message)
      → ((add_with_reason u l (some msg)).1.0 ≡ true) ↔ IsAdmissible l msg
  unfolding add_with_reason
  add_with_reason_iff l msg = (
    λ h. record {
      named = ground arith;
      fresh = ground arith;
      forward = regresses-IsForward l msg (ground arith);
      unforked = forks-IsUnforked l msg (ground arith);
    },
    λ a. ground (arith, IsForward-regresses l msg a.forward, IsUnforked-forks l msg a.unforked),
  )

  -- A refused message changes no stored message, no ID, no recorded clock and no recorded
  -- predecessor, and counts as no verified message.
  pub add_with_reason_refused :
      (l : Ledger) (msg : Option Message)
      → (add_with_reason u l msg).1.0 ≡ false
      → ((add_with_reason u l msg).0.messages ≡ l.messages)
        × ((add_with_reason u l msg).0.ids ≡ l.ids)
        × ((add_with_reason u l msg).0.sender_clock ≡ l.sender_clock)
        × ((add_with_reason u l msg).0.prev_hash_by_sender ≡ l.prev_hash_by_sender)
        × ((add_with_reason u l msg).0.verified ≡ l.verified)
  unfolding add_with_reason
  add_with_reason_refused l none h = ground arith
  add_with_reason_refused l (some msg) h = ground arith

  -- The four refusals and the acceptance, in the order of the checks: each reason that the result
  -- can carry, with the check that failed and all those before it passed.
  abbrev pub IsOutcome : Ledger → Message → Bool → Bytes → Type 0
  IsOutcome l msg taken reason =
      ((taken ≡ false) × (reason ≡ invalid_message) × (msg.id ≡ []))
      ⊎ ((taken ≡ false) × (reason ≡ duplicate_message) × (msg.id ≢ []) × (has l.ids msg.id ≡ true))
      ⊎ ((taken ≡ false)
          × (reason ≡ clock_regression)
          × (msg.id ≢ [])
          × (has l.ids msg.id ≡ false)
          × (¬ IsForward l msg))
      ⊎ ((taken ≡ false)
          × (reason ≡ equivocation_fork)
          × (msg.id ≢ [])
          × (has l.ids msg.id ≡ false)
          × IsForward l msg
          × (¬ IsUnforked l msg))
      ⊎ ((taken ≡ true) × (reason ≡ []) × IsAdmissible l msg)

  not-IsForward : (l : Ledger) (msg : Message) → regresses l msg ≡ true → ¬ IsForward l msg
  not-IsForward l msg e f = ground (arith, IsForward-regresses l msg f)

  not-IsUnforked : (l : Ledger) (msg : Message) → forks l msg ≡ true → ¬ IsUnforked l msg
  not-IsUnforked l msg e f = ground (arith, IsUnforked-forks l msg f)

  -- The reason given for a refusal names the first check that fails: the ID, a duplicate, the
  -- sender's clock, the predecessor. A message that is taken passed them all, and gets no reason.
  pub add_with_reason_reasons :
      (l : Ledger) (msg : Message)
      → IsOutcome l msg (add_with_reason u l (some msg)).1.0 (add_with_reason u l (some msg)).1.1
  unfolding add_with_reason
  add_with_reason_reasons l msg = elim (Bytes-discrete msg.id []) [
    | yes e ↦ inl (ground arith)
    | no named ↦ elim (Bool-cases (has l.ids msg.id)) [
      | inl e ↦ inr (inl (ground arith))
      | inr fresh ↦ elim (Bool-cases (regresses l msg)) [
        | inl e ↦ inr (inr (inl (ground (arith, not-IsForward l msg e))))
        | inr f ↦
            let forward = regresses-IsForward l msg f in
            elim (Bool-cases (forks l msg)) [
              | inl e ↦ inr (inr (inr (inl (ground (arith, not-IsUnforked l msg e)))))
              | inr k ↦ inr (
                  inr (
                    inr (
                      inr (
                        ground arith,
                        ground arith,
                        record {
                          named = named;
                          fresh = fresh;
                          forward = forward;
                          unforked = forks-IsUnforked l msg k;
                        },
                      ))))
            ]
      ]
    ]
  ]

-- Eviction forgets neither clocks nor predecessors.
evict_keeps :
    (l : Ledger)
    → ((evict l).sender_clock ≡ l.sender_clock)
      × ((evict l).prev_hash_by_sender ≡ l.prev_hash_by_sender)
unfolding evict
evict_keeps l = ground arith

module _ (u : Unicode) where
  pub get-accept_clock :
      (l : Ledger) (msg : Message) (s : Bytes)
      → get (accept u l msg).sender_clock s
        ≡ ite
            (Bytes-discrete msg.sender_id s)
            (if ltb (at l.sender_clock msg.sender_id) (own_clock msg)
              then some (own_clock msg)
              else get l.sender_clock s)
            (get l.sender_clock s)
  unfolding accept record_message
  get-accept_clock l msg s = ground (
    arith,
    evict_keeps (record_message u l msg),
    get-put l.sender_clock msg.sender_id s (own_clock msg),
  )

  pub get-accept_chain :
      (l : Ledger) (msg : Message) (k : Bytes)
      → get (accept u l msg).prev_hash_by_sender k
        ≡ ite
            (Bytes-discrete msg.prev_hash [])
            (get l.prev_hash_by_sender k)
            (ite (Bytes-discrete (chain_key msg) k) (some msg.id) (get l.prev_hash_by_sender k))
  unfolding accept record_message
  get-accept_chain l msg k = ground (
    arith,
    evict_keeps (record_message u l msg),
    get-put l.prev_hash_by_sender (chain_key msg) k msg.id,
  )
