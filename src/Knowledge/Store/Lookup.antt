-- ===== src/Knowledge/Store/Lookup.antt =====
-- What is loaded from a store behind the saving of a memory.
use long_running_coding_agen.Prelude.{
  String, ◌≡◌, refl, sym, ◌∙◌, inl, inr, Bool, true, false, Option, some, List, [], ◌∷◌, str_eq,
  str_eq_iff, str_leb, if◌then◌else◌, find, Bool-cases, ok,
}
use long_running_coding_agen.Knowledge.Schema.{MemoryRecord}
use long_running_coding_agen.Knowledge.Store.{
  KnowledgeStore, append_event, write_memory, find_memory, load_memory, save_memory, found,
  memory_file,
}

same_name : (a b j : String) → str_eq a b ≡ true → str_eq b j ≡ str_eq a j
same_name a b j e = rw ((str_eq_iff a b).0 e) refl

other_name : (a b j : String) → str_eq a b ≡ false → str_eq a j ≡ true → str_eq b j ≡ false
other_name a b j e f = elim (Bool-cases (str_eq b j)) [
  | inl g ↦ absurd (cc ((str_eq_iff a b).1 ((str_eq_iff a j).0 f ∙ sym ((str_eq_iff b j).0 g))))
  | inr g ↦ g
]

module _ {F : Type 0} where
  found-if :
      (b : Bool) (i : String) (m : MemoryRecord F) (o : Option (MemoryRecord F))
      → found i (if b then some m else o) ≡ (if b then ok m else found i o)
  found-if true i m o = refl
  found-if false i m o = refl

  -- A memory that is written is found under its identifier, and the others are found as before.
  find_memory-write_memory :
      (j : String) (m : MemoryRecord F) (ns : List (MemoryRecord F))
      → find_memory j (write_memory m ns)
        ≡ (if str_eq m.memory_id j then some m else find_memory j ns)
  unfolding find_memory write_memory find
  find_memory-write_memory j m [] = refl
  find_memory-write_memory j m (n ∷ ns) = elim (Bool-cases (str_eq m.memory_id n.memory_id)) [
    | inl e ↦
        rw (e, same_name _ _ j e)
          (elim (Bool-cases (str_eq m.memory_id j)) [ inl f ↦ rw f refl | inr f ↦ rw f refl ])
    | inr e ↦ elim (Bool-cases (str_leb (memory_file m.memory_id) (memory_file n.memory_id))) [
      | inl f ↦ rw (e, f) refl
      | inr f ↦
          rw (e, f, find_memory-write_memory j m ns)
            (elim (Bool-cases (str_eq m.memory_id j)) [
              | inl g ↦ rw (g, other_name _ _ j e g) refl
              | inr g ↦ rw g refl
            ])
    ]
  ]

  -- In a store that is not frozen, the memory that was saved is loaded under its identifier, and
  -- what is loaded under another one is what was loaded before.
  pub load_memory-save_memory :
      (j : String) (m : MemoryRecord F) (s : KnowledgeStore F)
      → s.frozen_records ≡ false
      → load_memory j (save_memory m s).1 ≡ (if str_eq m.memory_id j then ok m else load_memory j s)
  unfolding load_memory save_memory append_event
  load_memory-save_memory j m s h =
      rw (h, find_memory-write_memory j m s.memories) (found-if (str_eq m.memory_id j) j m _)
