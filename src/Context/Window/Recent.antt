-- ===== src/Context/Window/Recent.antt =====
-- What a window on the recent turns holds.
use long_running_coding_agen.Prelude.{
  zero, suc, ◌≢◌, sym, ◌∙◌, ℕ, ◌+◌, ◌-◌, ◌≤◌, ◌<◌, ◌≡◌, refl, ap, inl, inr, some, List, [], ◌∷◌,
  arith, leb, ◌==◌, length, get_elem?, Bool-cases,
}
use long_running_coding_agen.Context.Buffer.{Item, message, turn, turns_of, messages_of, last_items}
use long_running_coding_agen.Context.Window.{turn_indexes, keep, only_messages, window_items}

module _ {ℓ} {A : Type ℓ} where
  get_elem?-lt : (xs : List A) (i : ℕ) → i < length xs → (x : A) × (get_elem? xs i ≡ some x)
  get_elem?-lt [] i h = absurd (omega arith)
  get_elem?-lt (x ∷ xs) zero h = (x, refl)
  get_elem?-lt (x ∷ xs) (suc i) h = get_elem?-lt xs i (omega arith)

  last_items-all : (n : ℕ) (xs : List A) → length xs ≤ n → last_items n xs ≡ xs
  unfolding last_items
  last_items-all n [] h = refl
  last_items-all n (x ∷ xs) h = ground arith

  last_items-zero : (xs : List A) → last_items 0 xs ≡ []
  unfolding last_items
  last_items-zero [] = refl
  last_items-zero (x ∷ xs) = ground (arith, last_items-zero xs)

module _ {J : Type 0} where
  length-turn_indexes :
      (j : ℕ) (is : List (Item J)) → length (turn_indexes j is) ≡ length (turns_of is)
  unfolding turn_indexes turns_of
  length-turn_indexes j [] = refl
  length-turn_indexes j (message m ∷ is) = length-turn_indexes (j + 1) is
  length-turn_indexes j (turn t ∷ is) = ap suc (length-turn_indexes (j + 1) is)

  turn_indexes-le :
      (j : ℕ) (is : List (Item J)) (r k : ℕ) → get_elem? (turn_indexes j is) r ≡ some k → j ≤ k
  unfolding turn_indexes
  turn_indexes-le j [] r k h = cc
  turn_indexes-le j (message m ∷ is) r k h = ground (arith, turn_indexes-le (j + 1) is r k h)
  turn_indexes-le j (turn t ∷ is) zero k h = ground arith
  turn_indexes-le j (turn t ∷ is) (suc r) k h = ground (arith, turn_indexes-le (j + 1) is r k h)

  messages_of-keep : (k j : ℕ) (is : List (Item J)) → messages_of (keep k j is) ≡ messages_of is
  unfolding keep messages_of
  messages_of-keep k j [] = refl
  messages_of-keep k j (message m ∷ is) = ground (arith, messages_of-keep k (j + 1) is)
  messages_of-keep k j (turn t ∷ is) = ground (arith, messages_of-keep k (j + 1) is)

  keep-all : (k j : ℕ) (is : List (Item J)) → k ≤ j → keep k j is ≡ is
  unfolding keep
  keep-all k j [] h = refl
  keep-all k j (i ∷ is) h = ground (arith, keep-all k (j + 1) is)

  turns_of-keep :
      (n j k : ℕ) (is : List (Item J))
      → n ≤ length (turns_of is)
      → get_elem? (turn_indexes j is) (length (turns_of is) - n) ≡ some k
      → turns_of (keep k j is) ≡ last_items n (turns_of is)
  unfolding turn_indexes turns_of keep last_items
  turns_of-keep n j k [] h e = refl
  turns_of-keep n j k (message m ∷ is) h e = ground (arith, turns_of-keep n (j + 1) k is)
  turns_of-keep n j k (turn t ∷ is) h e = elim (Bool-cases (leb (suc (length (turns_of is))) n)) [
    | inl f ↦
        let z : suc (length (turns_of is)) - n ≡ 0 = ground arith in
        let q : some j ≡ some k = rw z at e in
        let m : k ≤ j = ground arith in ground (arith, keep-all k (j + 1) is)
    | inr f ↦
        let z : suc (length (turns_of is)) - n ≡ suc (length (turns_of is) - n) = ground arith in
        let q : get_elem? (turn_indexes (j + 1) is) (length (turns_of is) - n) ≡ some k =
          rw z at e in
        let m = turn_indexes-le (j + 1) is (length (turns_of is) - n) k q in
        ground (arith, turns_of-keep n (j + 1) k is)
  ]

  messages_of-only : (is : List (Item J)) → messages_of (only_messages is) ≡ messages_of is
  unfolding only_messages messages_of
  messages_of-only [] = refl
  messages_of-only (message m ∷ is) = ap (λ ms. m ∷ ms) (messages_of-only is)
  messages_of-only (turn t ∷ is) = messages_of-only is

  turns_of-only : (is : List (Item J)) → turns_of (only_messages is) ≡ []
  unfolding only_messages turns_of
  turns_of-only [] = refl
  turns_of-only (message m ∷ is) = turns_of-only is
  turns_of-only (turn t ∷ is) = turns_of-only is

  window_items-late :
      (n : ℕ) (is : List (Item J))
      → n ≢ 0
      → n < length (turns_of is)
      → (k : ℕ) × (get_elem? (turn_indexes 0 is) (length (turns_of is) - n) ≡ some k)
        × (window_items n is ≡ keep k 0 is)
  unfolding window_items
  window_items-late n is h l =
      let (k, e) =
        get_elem?-lt (turn_indexes 0 is) (length (turns_of is) - n)
          (ground (arith, length-turn_indexes 0 is)) in
      (k, e, ground (arith, length-turn_indexes 0 is))

  window_items-few :
      (n : ℕ) (is : List (Item J)) → n ≢ 0 → length (turns_of is) ≤ n → window_items n is ≡ is
  unfolding window_items
  window_items-few n is h l = ground (arith, length-turn_indexes 0 is)

  window_items-zero : (is : List (Item J)) → window_items 0 is ≡ only_messages is
  unfolding window_items
  window_items-zero is = refl

  -- A window on `n` turns keeps all messages that belong to no turn, and of the turns it keeps the
  -- last `n`, which are those that `recent_turns` gives.
  pub window_items-recent_turns :
      (n : ℕ) (is : List (Item J))
      → (messages_of (window_items n is) ≡ messages_of is)
        × (turns_of (window_items n is) ≡ last_items n (turns_of is))
  window_items-recent_turns n is = elim (Bool-cases (n == 0)) [
    | inl z ↦
        let q : n ≡ 0 = ground arith in
        rw q (
          rw (window_items-zero is) (messages_of-only is),
          rw (window_items-zero is) (turns_of-only is ∙ sym (last_items-zero (turns_of is))),
        )
    | inr z ↦ elim (Bool-cases (leb (length (turns_of is)) n)) [
      | inl f ↦
          rw (window_items-few n is (ground arith) (ground arith))
            (refl, sym (last_items-all n (turns_of is) (ground arith)))
      | inr f ↦
          let (k, e, same) = window_items-late n is (ground arith) (ground arith) in
          rw same (messages_of-keep k 0 is, turns_of-keep n 0 k is (ground arith) e)
    ]
  ]
