-- ===== src/Context/Pairing.antt =====
-- The pairing of tool calls with their results, which the operations of the buffer keep.
pub mod Operations
pub mod Export
use long_running_coding_agen.Prelude.{
  str_eq_comm, elem-append, nodup-append, or_empty, ℕ, String, ◌≡◌, refl, sym, ◌∙◌, ap, inl, inr,
  Bool, true, false, not, ◌&&◌, ◌||◌, Option, none, some, List, [], ◌∷◌, ◌++◌, map, arith, str_eq,
  str_eq_iff, if◌then◌else◌, All, all, any, elem, nodup, is_empty, Result, ok, raise, Bool-cases,
}
use long_running_coding_agen.Context.Turn.{
  Message, Call, InteractionTurn, call_id, answers, returned_ids, is_subset, turn_add_result,
  complete, BufferError, ContextItemStatus,
}
use long_running_coding_agen.Context.Buffer.{
  Item, message, turn, ContextBuffer, turns_of, messages_of, plain, append, handoff_items,
  when_idle, Step, add_assistant_tool_turn, add_tool_result, finalize_turn, add_user_reminder,
  add_protocol_correction, add_assistant_final, replace_items, start_new_segment, reset_to,
  answered,
}

pub elem-any :
    (p : String → Bool) (x : String) (xs : List String)
    → elem x xs ≡ true
    → any p xs ≡ false
    → p x ≡ false
unfolding elem any
elem-any p x [] h k = cc
elem-any p x (y ∷ ys) h k = elim (Bool-cases (str_eq y x)) [
  | inl e ↦ rw (← (str_eq_iff y x).0 e) (ground arith)
  | inr e ↦ elem-any p x ys (ground arith) (ground arith)
]

all-append {ℓ} :
    {A : Type ℓ} (p : A → Bool) (xs : List A) (x : A)
    → all p xs ≡ true
    → p x ≡ true
    → all p (xs ++ x ∷ []) ≡ true
unfolding all
all-append p [] x h k = ground arith
all-append p (y ∷ xs) x h k = ground (arith, all-append p xs x)

map-append {ℓ κ} :
    {A : Type ℓ} {B : Type κ} (f : A → B) (xs ys : List A) → map f (xs ++ ys) ≡ map f xs ++ map f ys
map-append f [] ys = refl
map-append f (x ∷ xs) ys = ap (λ zs. f x ∷ zs) (map-append f xs ys)

pub All-append {ℓ κ} :
    {A : Type ℓ} (P : A → Type κ) (xs : List A) (y : A) → All P xs → P y → All P (xs ++ y ∷ [])
All-append P [] y h k = (k, tt)
All-append P (x ∷ xs) y h k = (h.0, All-append P xs y h.1 k)

or_empty-answers :
    (i : String) (o : Option String)
    → str_eq i "" ≡ false
    → (elim o [ none ↦ false | some j ↦ str_eq j i ]) ≡ false
    → str_eq (or_empty o) i ≡ false
or_empty-answers i none h k = str_eq_comm "" i ∙ h
or_empty-answers i (some j) h k = k

module _ {J : Type 0} where
  -- A message that neither calls a tool nor answers a call.
  pub record IsPlain (m : Message J) : Type 0 where
    pub calls : m.tool_calls ≡ []
    pub answers_none : m.tool_call_id ≡ none

  -- A turn whose results answer calls of its message, each at most once.
  pub record IsTurn (t : InteractionTurn J) : Type 0 where
    pub call_ids : t.tool_call_ids ≡ map (λ c. or_empty c.id) t.assistant_message.tool_calls
    pub calls : is_empty t.tool_call_ids ≡ false
    pub named : any (λ i. str_eq i "") t.tool_call_ids ≡ false
    pub assistant : t.assistant_message.tool_call_id ≡ none
    pub matched : is_subset (returned_ids t) t.tool_call_ids ≡ true
    pub once : nodup (returned_ids t) ≡ true

  -- A turn all of whose calls are answered.
  abbrev pub IsComplete : InteractionTurn J → Type 0
  IsComplete t = IsTurn t × (complete t ≡ true)

  abbrev pub AreValid : List (Item J) → Type 0
  AreValid is = All IsPlain (messages_of is) × All IsComplete (turns_of is)

  pub record IsValid (b : ContextBuffer J) : Type 0 where
    pub system : IsPlain b.system_message
    pub anchor : IsPlain b.task_anchor_message
    pub items : AreValid b.items
    pub active : (t : InteractionTurn J) → b.active_turn ≡ some t → IsTurn t

  answers-elem :
      (i : String) (rs : List (Message J))
      → str_eq i "" ≡ false
      → any (answers i) rs ≡ false
      → elem i (map call_id rs) ≡ false
  unfolding any elem
  answers-elem i [] h k = refl
  answers-elem i (r ∷ rs) h k =
      ground (arith, or_empty-answers i r.tool_call_id h (ground arith), answers-elem i rs)

  turn_add_result-ok :
      (m : Message J) (t t' : InteractionTurn J)
      → turn_add_result m t ≡ ok t'
      → (elem (call_id m) t.tool_call_ids ≡ true)
        × (any (answers (call_id m)) t.tool_result_messages ≡ false)
        × (record t { tool_result_messages = t.tool_result_messages ++ m ∷ [] } ≡ t')
  unfolding turn_add_result
  turn_add_result-ok m t t' e = (ground arith, ground arith, ground arith)

  with_result-IsTurn :
      (m : Message J) (t : InteractionTurn J)
      → IsTurn t
      → elem (call_id m) t.tool_call_ids ≡ true
      → any (answers (call_id m)) t.tool_result_messages ≡ false
      → IsTurn (record t { tool_result_messages = t.tool_result_messages ++ m ∷ [] })
  with_result-IsTurn m t h known new =
      let named = elem-any (λ i. str_eq i "") (call_id m) t.tool_call_ids known h.named in
      let fresh = answers-elem (call_id m) t.tool_result_messages named new in
      let split = map-append call_id t.tool_result_messages (m ∷ []) in
      record {
        call_ids = h.call_ids;
        calls = h.calls;
        named = h.named;
        assistant = h.assistant;
        matched =
            rw split (
              all-append (λ x. elem x t.tool_call_ids) (returned_ids t) (call_id m) h.matched
                known);
        once = rw split (nodup-append (call_id m) (returned_ids t) h.once fresh);
      }

  pub turn_add_result-IsTurn :
      (m : Message J) (t t' : InteractionTurn J)
      → IsTurn t
      → turn_add_result m t ≡ ok t'
      → IsTurn t'
  turn_add_result-IsTurn m t t' h e =
      let (known, new, same) = turn_add_result-ok m t t' e in
      rw (← same) (with_result-IsTurn m t h known new)
