-- ===== src/Context/Pairing/Export.antt =====
-- What a buffer exports obeys the protocol of tool calls.
use long_running_coding_agen.Prelude.{
  str_eq_comm, or_empty, suc, leb, length, ℕ, String, ◌≡◌, refl, ap, sym, ◌∙◌, inl, inr, Bool, true,
  false, not, ◌&&◌, Option, none, some, List, [], ◌∷◌, ◌++◌, map, arith, str_eq, str_eq_iff, All,
  all, any, elem, nodup, select, is_empty, Result, ok, Bool-cases, Option-cases,
}
use long_running_coding_agen.Context.Turn.{
  Message, Call, InteractionTurn, call_id, returned_ids, is_subset, complete, turn_export,
  BufferError,
}
use long_running_coding_agen.Context.Buffer.{
  last_items, Item, message, turn, ContextBuffer, turns_of, messages_of, call_ids,
}
use long_running_coding_agen.Context.Window.Recent.{window_items-recent_turns}
use long_running_coding_agen.Context.Window.{
  windowed, exported, export_items, export_window, strip_context_fields,
}
use long_running_coding_agen.Context.Pairing.{elem-any, IsPlain, IsComplete, AreValid, IsValid}

abbrev others : String → List String → List String
others i = select (λ j. not (str_eq j i))

elem-others :
    (i j : String) (ps : List String)
    → elem j ps ≡ true
    → str_eq j i ≡ false
    → elem j (others i ps) ≡ true
unfolding elem select
elem-others i j [] h k = cc
elem-others i j (p ∷ ps) h k = elim (Bool-cases (str_eq p j)) [
  | inl e ↦ rw ((str_eq_iff p j).0 e, k) (ground (arith, (str_eq_iff j j).1 refl))
  | inr e ↦ ground (arith, elem-others i j ps)
]

is_subset-others :
    (i : String) (js ps : List String)
    → is_subset js ps ≡ true
    → elem i js ≡ false
    → is_subset js (others i ps) ≡ true
unfolding elem all
is_subset-others i [] ps h k = refl
is_subset-others i (j ∷ js) ps h k = ground (arith, elem-others i j ps, is_subset-others i js ps)

others-is_subset :
    (i : String) (js ps : List String)
    → is_subset ps (i ∷ js) ≡ true
    → is_subset (others i ps) js ≡ true
unfolding elem all select
others-is_subset i js [] h = refl
others-is_subset i js (p ∷ ps) h = ground (arith, others-is_subset i js ps, str_eq_comm p i)

any-others :
    (p : String → Bool) (i : String) (ps : List String)
    → any p ps ≡ false
    → any p (others i ps) ≡ false
unfolding any select
any-others p i [] h = refl
any-others p i (q ∷ ps) h = ground (arith, any-others p i ps)

module _ {J : Type 0} where
  -- A server's reading of a conversation: a result answers a pending call, and any other message
  -- comes only where no call is pending.
  unfoldable pub obeys : (pending : List String) → List (Message J) → Bool
  unfolding elem select
  obeys pending [] = is_empty pending
  obeys pending (m ∷ ms) = elim m.tool_call_id [
    | some i ↦ elem i pending && obeys (others i pending) ms
    | none ↦ is_empty pending && obeys (call_ids m) ms
  ]

  obeys-none :
      (m : Message J) (ms : List (Message J))
      → m.tool_call_id ≡ none
      → obeys [] (m ∷ ms) ≡ obeys (call_ids m) ms
  unfolding obeys
  obeys-none m ms h = ground arith

  obeys-some :
      (i : String) (m : Message J) (ps : List String) (ms : List (Message J))
      → m.tool_call_id ≡ some i
      → elem i ps ≡ true
      → obeys ps (m ∷ ms) ≡ obeys (others i ps) ms
  unfolding obeys
  obeys-some i m ps ms h k = ground arith

  -- The results of a turn answer all that is pending.
  obeys-results :
      (ps : List String) (rs ms : List (Message J))
      → nodup (map call_id rs) ≡ true
      → is_subset (map call_id rs) ps ≡ true
      → is_subset ps (map call_id rs) ≡ true
      → any (λ i. str_eq i "") ps ≡ false
      → obeys ps (rs ++ ms) ≡ obeys [] ms
  unfolding nodup all
  obeys-results [] [] ms once known answered named = refl
  obeys-results (p ∷ ps) [] ms once known answered named = absurd (unfold elem in cc)
  obeys-results ps (r ∷ rs) ms once known answered named = elim (Option-cases r.tool_call_id) [
    | inl e ↦
        let q : call_id r ≡ "" = ap or_empty e in
        let here : elem (call_id r) ps ≡ true = ground arith in
        let z = elem-any (λ i. str_eq i "") (call_id r) ps here named in
        let y = (str_eq_iff (call_id r) "").1 q in absurd (cc)
    | inr (i, e) ↦
        let q : call_id r ≡ i = ap or_empty e in
        let here : elem i ps ≡ true = rw (← q) (ground arith) in
        obeys-some i r ps (rs ++ ms) e here
        ∙ obeys-results (others i ps) rs ms (ground arith)
            (is_subset-others i (map call_id rs) ps (ground arith) (rw (← q) (ground arith)))
            (others-is_subset i (map call_id rs) ps (rw q at answered))
            (any-others (λ i. str_eq i "") i ps named)
  ]

  strip-obeys :
      (ps : List String) (ms : List (Message J))
      → obeys ps (map strip_context_fields ms) ≡ obeys ps ms
  unfolding obeys strip_context_fields
  strip-obeys ps [] = refl
  strip-obeys ps (m ∷ ms) = elim (Option-cases m.tool_call_id) [
    | inl e ↦ ground (arith, strip-obeys (call_ids m) ms)
    | inr (i, e) ↦ ground (arith, strip-obeys (others i ps) ms)
  ]

  turn_export-complete :
      (t : InteractionTurn J)
      → complete t ≡ true
      → turn_export t ≡ ok (t.assistant_message ∷ t.tool_result_messages)
  unfolding turn_export
  turn_export-complete t h = ground arith

  complete-subset :
      (t : InteractionTurn J)
      → complete t ≡ true
      → is_subset t.tool_call_ids (returned_ids t) ≡ true
  unfolding complete
  complete-subset t h = ground arith

  turn-obeys :
      (t : InteractionTurn J) (ms : List (Message J))
      → IsComplete t
      → obeys [] (t.assistant_message ∷ (t.tool_result_messages ++ ms)) ≡ obeys [] ms
  turn-obeys t ms (h, c) =
      obeys-none t.assistant_message (t.tool_result_messages ++ ms) h.assistant
      ∙ ap (λ ps. obeys ps (t.tool_result_messages ++ ms)) (sym h.call_ids)
      ∙ obeys-results t.tool_call_ids t.tool_result_messages ms h.once h.matched
          (complete-subset t c) h.named

  plain-obeys :
      (m : Message J) (ms : List (Message J)) → IsPlain m → obeys [] (m ∷ ms) ≡ obeys [] ms
  plain-obeys m ms p =
      obeys-none m ms p.answers_none
      ∙ ap (λ cs. obeys (map (λ (c : Call J). or_empty c.id) cs) ms) p.calls

  -- The export of items returns, and what it returns obeys the protocol.
  abbrev Exports : Result BufferError (List (Message J)) → Type 0
  Exports r = (ms : List (Message J)) × (r ≡ ok ms) × (obeys [] ms ≡ true)

  export_items-Exports :
      (include : Bool) (is : List (Item J)) → AreValid is → Exports (export_items include is)
  unfolding export_items turns_of messages_of
  export_items-Exports include [] v = ([], refl, unfold obeys in refl)
  export_items-Exports include (message m ∷ is) (vm, vt) =
      let (ms, e, h) = export_items-Exports include is (vm.1, vt) in
      elim (Bool-cases include) [
        | inl q ↦ (m ∷ ms, rw (e, q) refl, plain-obeys m ms vm.0 ∙ h)
        | inr q ↦ (ms, rw (e, q) refl, h)
      ]
  export_items-Exports include (turn t ∷ is) (vm, vt) =
      let (ms, e, h) = export_items-Exports include is (vm, vt.1) in
      (
        t.assistant_message ∷ (t.tool_result_messages ++ ms),
        rw (turn_export-complete t vt.0.1, e) refl,
        turn-obeys t ms vt.0 ∙ h,
      )

  All-last_items :
      (P : InteractionTurn J → Type 0) (n : ℕ) (ts : List (InteractionTurn J))
      → All P ts
      → All P (last_items n ts)
  unfolding last_items
  All-last_items P n [] h = tt
  All-last_items P n (t ∷ ts) h = elim (Bool-cases (leb (suc (length ts)) n)) [
    | inl e ↦ rw e h
    | inr e ↦ rw e (All-last_items P n ts h.1)
  ]

  windowed-AreValid :
      (recent : Option ℕ) (is : List (Item J)) → AreValid is → AreValid (windowed recent is)
  windowed-AreValid none is v = v
  windowed-AreValid (some n) is v =
      let (ms, ts) = window_items-recent_turns n is in
      (rw ms v.0, rw ts (All-last_items IsComplete n (turns_of is) v.1))

  exported-Exports :
      (o : Option (InteractionTurn J)) (recent : Option ℕ) (include : Bool) (b : ContextBuffer J)
      → o ≡ none
      → IsValid b
      → Exports (exported o recent include b)
  exported-Exports (some t) recent include b h v = absurd (cc)
  exported-Exports none recent include b h v =
      let (ms, e, k) =
        export_items-Exports include (windowed recent b.items)
          (windowed-AreValid recent b.items v.items) in
      (
        map strip_context_fields (b.system_message ∷ b.task_anchor_message ∷ ms),
        rw e refl,
        strip-obeys [] (b.system_message ∷ b.task_anchor_message ∷ ms)
            ∙ plain-obeys b.system_message (b.task_anchor_message ∷ ms) v.system
            ∙ plain-obeys b.task_anchor_message ms v.anchor
            ∙ k,
      )

  -- The export of a valid buffer without an active turn returns, for every window, and in the
  -- messages each result answers a pending call, and no other message comes while a call is pending.
  pub export_window-obeys :
      (recent : Option ℕ) (include : Bool) (b : ContextBuffer J)
      → IsValid b
      → b.active_turn ≡ none
      → (ms : List (Message J)) × (export_window recent include b ≡ ok ms) × (obeys [] ms ≡ true)
  unfolding export_window
  export_window-obeys recent include b v h = exported-Exports b.active_turn recent include b h v
