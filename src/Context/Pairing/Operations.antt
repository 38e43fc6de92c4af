-- ===== src/Context/Pairing/Operations.antt =====
-- The operations of the buffer but `replace_items` keep the pairing of calls and results.
use long_running_coding_agen.Prelude.{
  ◌||◌, ℕ, String, ◌≡◌, refl, ap, inl, inr, Option, none, some, List, [], ◌∷◌, ◌++◌, arith, str_eq,
  all, any, nodup, is_empty, Result, ok, raise, Bool-cases,
}
use long_running_coding_agen.Context.Turn.{
  Message, InteractionTurn, turn_add_result, complete, BufferError,
}
use long_running_coding_agen.Context.Buffer.{
  from_task, new_buffer, Item, message, turn, ContextBuffer, turns_of, messages_of, plain, append,
  handoff_items, when_idle, next_segment, add_assistant_tool_turn, add_tool_result, finalize_turn,
  add_user_reminder, add_protocol_correction, add_assistant_final, start_new_segment, reset_to,
  answered, changed, call_ids, started, answered_turn, finalized, numbered, Step,
}
use long_running_coding_agen.Context.Pairing.{
  IsPlain, IsTurn, IsComplete, IsValid, All-append, turn_add_result-IsTurn,
}

-- The operations that change a buffer, with their arguments; not `replace_items`, which puts any
-- items in the place of its own.
pub data Operation (J : Type 0) : Type 0 where
  start : (now : String) → Message J → ℕ → List (String × J) → Operation J
  answer final : Message J → Operation J
  remind correct : String → Operation J
  finalize segment : Operation J
  reset : Message J → Option (Message J) → Message J → Operation J

some-injective : {A : Type 0} {x y : A} → some x ≡ some y → x ≡ y
some-injective h = cc

module _ {J : Type 0} where
  turns_of-append_message :
      (is : List (Item J)) (m : Message J) → turns_of (is ++ message m ∷ []) ≡ turns_of is
  unfolding turns_of
  turns_of-append_message [] m = refl
  turns_of-append_message (message n ∷ is) m = turns_of-append_message is m
  turns_of-append_message (turn t ∷ is) m = ap (λ ts. t ∷ ts) (turns_of-append_message is m)

  messages_of-append_message :
      (is : List (Item J)) (m : Message J)
      → messages_of (is ++ message m ∷ []) ≡ messages_of is ++ m ∷ []
  unfolding messages_of
  messages_of-append_message [] m = refl
  messages_of-append_message (message n ∷ is) m =
      ap (λ ms. n ∷ ms) (messages_of-append_message is m)
  messages_of-append_message (turn t ∷ is) m = messages_of-append_message is m

  turns_of-append_turn :
      (is : List (Item J)) (t : InteractionTurn J)
      → turns_of (is ++ turn t ∷ []) ≡ turns_of is ++ t ∷ []
  unfolding turns_of
  turns_of-append_turn [] t = refl
  turns_of-append_turn (message n ∷ is) t = turns_of-append_turn is t
  turns_of-append_turn (turn u ∷ is) t = ap (λ ts. u ∷ ts) (turns_of-append_turn is t)

  messages_of-append_turn :
      (is : List (Item J)) (t : InteractionTurn J)
      → messages_of (is ++ turn t ∷ []) ≡ messages_of is
  unfolding messages_of
  messages_of-append_turn [] t = refl
  messages_of-append_turn (message n ∷ is) t = ap (λ ms. n ∷ ms) (messages_of-append_turn is t)
  messages_of-append_turn (turn u ∷ is) t = messages_of-append_turn is t

  append-IsValid :
      (m : Message J) (b : ContextBuffer J) → IsPlain m → IsValid b → IsValid (append (message m) b)
  append-IsValid m b p v = record {
    system = v.system;
    anchor = v.anchor;
    items = (
      rw (messages_of-append_message b.items m)
          (All-append IsPlain (messages_of b.items) m v.items.0 p),
      rw (turns_of-append_message b.items m) v.items.1,
    );
    active = v.active;
  }

  changed-IsValid :
      (o : Option (InteractionTurn J)) (f : ContextBuffer J → ContextBuffer J) (b : ContextBuffer J)
      → b.active_turn ≡ o
      → IsValid b
      → (b.active_turn ≡ none → IsValid (f b))
      → IsValid (changed o f b).1
  changed-IsValid none f b e v k = k e
  changed-IsValid (some t) f b e v k = v

  numbered-after : (r : Step J) → (numbered r).1 ≡ r.1
  numbered-after (raise e, b) = refl
  numbered-after (ok u, b) = refl

  started-IsValid :
      (o : Option (InteractionTurn J)) (now : String) (m : Message J) (step : ℕ)
      (metadata : List (String × J)) (b : ContextBuffer J)
      → m.tool_call_id ≡ none
      → IsValid b
      → IsValid (started o now m step metadata b).1
  started-IsValid (some t) now m step metadata b p v = v
  started-IsValid none now m step metadata b p v =
      elim (Bool-cases (is_empty (call_ids m) || any (λ i. str_eq i "") (call_ids m))) [
        | inl e ↦ rw e v
        | inr e ↦ rw e (record {
          system = v.system;
          anchor = v.anchor;
          items = v.items;
          active = λ t h. rw (← (some-injective h)) (record {
            call_ids = refl;
            calls = ground arith;
            named = ground arith;
            assistant = p;
            matched = unfold all in refl;
            once = unfold nodup in refl;
          });
        })
      ]

  answered-IsValid :
      (t : InteractionTurn J) (r : Result BufferError (InteractionTurn J)) (b : ContextBuffer J)
      → ((t' : InteractionTurn J) → r ≡ ok t' → IsTurn t')
      → IsValid b
      → IsValid (answered r b).1
  answered-IsValid t (raise e) b k v = v
  answered-IsValid t (ok t') b k v = record {
    system = v.system;
    anchor = v.anchor;
    items = v.items;
    active = λ u h. rw (← (some-injective h)) (k t' refl);
  }

  answered_turn-IsValid :
      (o : Option (InteractionTurn J)) (m : Message J) (b : ContextBuffer J)
      → b.active_turn ≡ o
      → IsValid b
      → IsValid (answered_turn o m b).1
  answered_turn-IsValid none m b e v = v
  answered_turn-IsValid (some t) m b e v =
      answered-IsValid t (turn_add_result m t) b
        (λ t' h. turn_add_result-IsTurn m t t' (v.active t e) h) v

  finalized-IsValid :
      (o : Option (InteractionTurn J)) (b : ContextBuffer J)
      → b.active_turn ≡ o
      → IsValid b
      → IsValid (finalized o b).1
  finalized-IsValid none b e v = v
  finalized-IsValid (some t) b e v = elim (Bool-cases (complete t)) [
    | inr c ↦ rw c v
    | inl c ↦ rw c (record {
      system = v.system;
      anchor = v.anchor;
      items = (
        rw (messages_of-append_turn b.items t) v.items.0,
        rw (turns_of-append_turn b.items t)
            (All-append IsComplete (turns_of b.items) t v.items.1 (v.active t e, c)),
      );
      active = λ u h. cc;
    })
  ]

  -- What an operation leaves, whether it returns or raises.
  abbrev pub after : Operation J → ContextBuffer J → ContextBuffer J
  after (start now m step metadata) b = (add_assistant_tool_turn now m step metadata b).1
  after (answer m) b = (add_tool_result m b).1
  after (final m) b = (add_assistant_final m b).1
  after (remind s) b = (add_user_reminder s b).1
  after (correct s) b = (add_protocol_correction s b).1
  after finalize b = (finalize_turn b).1
  after segment b = (start_new_segment b).1
  after (reset a h i) b = (reset_to a h i b).1

  -- What the callers see to: the messages that they add are of the kind that the call is for.
  abbrev pub IsFit : Operation J → Type 0
  IsFit (start now m step metadata) = m.tool_call_id ≡ none
  IsFit (final m) = IsPlain m
  IsFit (reset a none i) = IsPlain a × IsPlain i
  IsFit (reset a (some h) i) = IsPlain a × IsPlain h × IsPlain i
  IsFit _ = Unit

  plain-IsPlain :
      (role content : String) (kind : Option String) → IsPlain {J = J} (plain role content kind)
  plain-IsPlain role content kind = record { calls = refl; answers_none = refl }

  reset-IsValid :
      (a : Message J) (h : Option (Message J)) (i : Message J) (b : ContextBuffer J)
      → IsFit (reset a h i)
      → IsValid b
      → IsValid (
          next_segment
            (record b { task_anchor_message = a; items = handoff_items h ++ message i ∷ [] }))
  reset-IsValid a none i b (p, q) v = record {
    system = v.system;
    anchor = p;
    items = unfold turns_of messages_of in ((q, tt), tt);
    active = v.active;
  }
  reset-IsValid a (some h) i b (p, r, q) v = record {
    system = v.system;
    anchor = p;
    items = unfold turns_of messages_of in ((r, (q, tt)), tt);
    active = v.active;
  }

  -- The initial buffer is valid.
  pub from_task-IsValid :
      (system_prompt task : String) → IsValid {J = J} (from_task system_prompt task)
  unfolding from_task new_buffer turns_of messages_of
  from_task-IsValid system_prompt task = record {
    system = plain-IsPlain "system" system_prompt none;
    anchor = plain-IsPlain "user" task none;
    items = (tt, tt);
    active = λ t h. cc;
  }

  -- An operation keeps a valid buffer valid, whether it returns or raises, where a turn that is
  -- started does not answer a call, and a final answer, an anchor, a handoff and an instruction
  -- neither call a tool nor answer a call. Replacing the items, which the code does not check, is no
  -- such operation.
  pub after-IsValid :
      (o : Operation J) (b : ContextBuffer J) → IsFit o → IsValid b → IsValid (after o b)
  unfolding add_assistant_tool_turn add_tool_result finalize_turn add_user_reminder
      add_protocol_correction add_assistant_final start_new_segment reset_to
  after-IsValid (start now m step metadata) b p v =
      started-IsValid b.active_turn now m step metadata b p v
  after-IsValid (answer m) b p v = answered_turn-IsValid b.active_turn m b refl v
  after-IsValid (final m) b p v =
      changed-IsValid b.active_turn (append (message m)) b refl v (λ e. append-IsValid m b p v)
  after-IsValid (remind s) b p v =
      let m = plain "user" s (some "user_reminder") in
      changed-IsValid b.active_turn (append (message m)) b refl v
        (λ e. append-IsValid m b (plain-IsPlain "user" s (some "user_reminder")) v)
  after-IsValid (correct s) b p v =
      let m = plain "user" s (some "protocol_correction") in
      changed-IsValid b.active_turn (append (message m)) b refl v
        (λ e. append-IsValid m b (plain-IsPlain "user" s (some "protocol_correction")) v)
  after-IsValid finalize b p v = finalized-IsValid b.active_turn b refl v
  after-IsValid segment b p v = rw (numbered-after (changed b.active_turn next_segment b)) (
      changed-IsValid b.active_turn next_segment b refl v
        (λ e. record { system = v.system; anchor = v.anchor; items = v.items; active = v.active }))
  after-IsValid (reset a h i) b p v =
      rw
        (numbered-after (
          when_idle
            (λ c.
              next_segment
                (record c { task_anchor_message = a; items = handoff_items h ++ message i ∷ [] }))
            b))
        (changed-IsValid b.active_turn
          (λ c.
            next_segment
              (record c { task_anchor_message = a; items = handoff_items h ++ message i ∷ [] }))
          b refl v (λ e. reset-IsValid a h i b p v))
