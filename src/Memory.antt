-- ===== src/Memory.antt =====
-- internal/ai/memory.go: the facts that a persona remembers, kept in a file. A method holds the mutex
-- throughout, so it is one step. `maxItems`, an int, is a natural number here.
pub mod Window
pub mod Path
use distributed_multi_agent.Base.{
  ℕ, ◌-◌, List, [], ◌∷◌, ◌++◌, Bool, true, false, ◌&&◌, ◌||◌, Option, none, some, ite,
  if◌then◌else◌, ltb, leb, ◌==◌, length, drop, Bytes, bytes, Bytes-discrete, Result, ok, err,
}

pub record Memory : Type 0 where
  pub id : Bytes
  pub fact : Bytes
  pub created_at : Bytes

-- What the code calls of `encoding/json` and of the file system: `decode` is what `Unmarshal` leaves
-- in an empty slice, and `write` what the file holds after a write, given what it held.
pub record Disk : Type 0 where
  pub encode : List Memory → Result Bytes
  pub decode : Bytes → List Memory
  pub write : Option Bytes → Bytes → Option Bytes

-- `file` is what the file at `path` holds.
pub record MemoryStore : Type 0 where
  pub memories : List Memory
  pub path : Bytes
  pub max_items : ℕ
  pub file : Option Bytes

-- The bytes that a directory name may hold: letters, digits, `-` and `_`.
unfoldable pub is_safe : ℕ → Bool
is_safe c =
    (leb b'a' c && leb c b'z')
    || ((leb b'A' c && leb c b'Z') || ((leb b'0' c && leb c b'9') || (c == b'-' || c == b'_')))

unfoldable pub safe_bytes : Bytes → Bytes
safe_bytes [] = []
safe_bytes (c ∷ cs) = let rest = safe_bytes cs in if is_safe c then c ∷ rest else rest

unfoldable pub sanitise : Bytes → Bytes
sanitise name = ite (Bytes-discrete (safe_bytes name) []) (bytes "default") (safe_bytes name)

-- The memories of the prompt section.
unfoldable pub prompt_lines : List Memory → Bytes → Bytes
prompt_lines [] s = s
prompt_lines (m ∷ ms) s = prompt_lines ms (s ++ (bytes "- " ++ (m.fact ++ bytes "\n")))

unfoldable pub as_prompt_section : MemoryStore → Bytes
as_prompt_section ms = elim ms.memories [
  | [] ↦ []
  | m ∷ rest ↦
      prompt_lines (m ∷ rest) (bytes "\n\nYou remember these facts from past conversations:\n")
]

-- The loop of `Delete`: the memories without the first one of that ID, if there is one.
unfoldable pub delete_first : List Memory → Bytes → Option (List Memory)
delete_first [] id = none
delete_first (m ∷ ms) id =
    let rest = delete_first ms id in
    ite (Bytes-discrete m.id id) (some ms) (elim rest [ none ↦ none | some ms' ↦ some (m ∷ ms') ])

-- The memories after `Add`, before they are saved.
unfoldable pub append_memory : MemoryStore → Memory → List Memory
append_memory ms m =
    let all = ms.memories ++ (m ∷ []) in
    if ltb ms.max_items (length all) then drop (length all - ms.max_items) all else all

module _ (d : Disk) where
  unfoldable pub load : MemoryStore → MemoryStore
  load ms = elim ms.file [ none ↦ ms | some text ↦ record ms { memories = d.decode text } ]

  -- `NewMemoryStore`, for a home directory that exists, in the form that `filepath.Join` leaves as it
  -- is, and a file that holds `file`.
  unfoldable pub new_memory_store : Bytes → Bytes → ℕ → Option Bytes → MemoryStore
  new_memory_store home persona_name max_items file = load (record {
    memories = [];
    path = home ++ (bytes "/.dmapc/personas/" ++ (sanitise persona_name ++ bytes "/memory.json"));
    max_items = max_items;
    file = file;
  })

  unfoldable pub save : MemoryStore → MemoryStore
  save ms = elim (d.encode ms.memories) [
    | err e ↦ ms
    | ok text ↦ record ms { file = d.write ms.file text }
  ]

  -- `Add`; the memory has the fresh UUID and the time of the call.
  unfoldable pub remember : MemoryStore → Memory → MemoryStore
  remember ms m = save (record ms { memories = append_memory ms m })

  unfoldable pub forget : MemoryStore → Bytes → MemoryStore
  forget ms id = elim (delete_first ms.memories id) [
    | none ↦ ms
    | some rest ↦ save (record ms { memories = rest })
  ]
