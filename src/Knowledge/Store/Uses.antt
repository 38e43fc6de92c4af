-- ===== src/Knowledge/Store/Uses.antt =====
-- The uses of a memory, each of which a store counts once.
use long_running_coding_agen.Prelude.{
  ℕ, String, ◌≡◌, refl, sym, ◌∙◌, ap, Bool, true, false, not, Option, none, some, List, [], ◌∷◌,
  ◌++◌, arith, str_eq, str_eq_iff, if◌then◌else◌, any, find-All, All, Result, ok, raise,
}
use long_running_coding_agen.Knowledge.Schema.{
  MemoryRecord, KnowledgeUseRecord, KnowledgeUseType, use_type_eq, retrieved, exposed, referenced,
  helpful, harmful, neutral,
}
use long_running_coding_agen.Knowledge.Store.{
  KnowledgeStore, StoreError, find_memory, load_memory, save_memory, found, memory_use, write_use,
  loaded_use, add_memory_usage, use_exists, same_use, append_use, apply_usage, is_identified,
  option_eq, item_of, then_append,
}
use long_running_coding_agen.Knowledge.Store.Lookup.{load_memory-save_memory}

str_eq_refl : (a : String) → str_eq a a ≡ true
str_eq_refl a = (str_eq_iff a a).1 refl

option_eq_refl : (o : Option String) → option_eq o o ≡ true
option_eq_refl none = refl
option_eq_refl (some a) = str_eq_refl a

use_type_eq_refl : (t : KnowledgeUseType) → use_type_eq t t ≡ true
unfolding use_type_eq
use_type_eq_refl retrieved = refl
use_type_eq_refl exposed = refl
use_type_eq_refl referenced = refl
use_type_eq_refl helpful = refl
use_type_eq_refl harmful = refl
use_type_eq_refl neutral = refl

any-last :
    {A : Type 0} (p : A → Bool) (xs : List A) (x : A) → p x ≡ true → any p (xs ++ x ∷ []) ≡ true
unfolding any
any-last p [] x h = ground arith
any-last p (y ∷ xs) x h = ground (arith, any-last p xs x h)

trivial : {A : Type 0} (xs : List A) → All (λ x. Unit {0}) xs
trivial [] = tt
trivial (x ∷ xs) = (tt, trivial xs)

module _ {F : Type 0} where
  -- The identity of a use does not depend on its own identifier, its time, its reason and its
  -- retrieval, nor, where the project is given, on the state of the memory.
  same_use-again :
      (a b x y : String) (m m' : MemoryRecord F) (i : String) (t : KnowledgeUseType)
      (p k n : String) (q q' : Option String) (v v' : String)
      → str_eq p "" ≡ false
      → same_use (memory_use a x m i t p k n q v) ≡ same_use (memory_use b y m' i t p k n q' v')
  unfolding same_use
  same_use-again a b x y m m' i t p k n q q' v v' h = rw h refl

  same_use-same :
      (a b x y : String) (m m' : MemoryRecord F) (i : String) (t : KnowledgeUseType)
      (p k n : String) (q q' : Option String) (v v' : String)
      → str_eq p "" ≡ false
      → same_use (memory_use a x m i t p k n q v) (memory_use b y m' i t p k n q' v') ≡ true
  unfolding same_use
  same_use-same a b x y m m' i t p k n q q' v v' h =
      rw
        (
          h,
          str_eq_refl p,
          str_eq_refl k,
          str_eq_refl n,
          option_eq_refl (item_of (memory_use a x m i t p k n q v)),
          use_type_eq_refl t,
        )
        refl

  apply_usage-name :
      (now : String) (t : KnowledgeUseType) (m : MemoryRecord F)
      → (apply_usage now t m).memory_id ≡ m.memory_id
  unfolding apply_usage
  apply_usage-name now retrieved m = refl
  apply_usage-name now exposed m = refl
  apply_usage-name now referenced m = refl
  apply_usage-name now helpful m = refl
  apply_usage-name now harmful m = refl
  apply_usage-name now neutral m = refl

  found_ok :
      (i : String) (o : Option (MemoryRecord F)) (m : MemoryRecord F)
      → found i o ≡ ok m
      → o ≡ some m
  found_ok i none m e = cc
  found_ok i (some j) m e = cc

  loaded-name :
      (i : String) (s : KnowledgeStore F) (m : MemoryRecord F)
      → load_memory i s ≡ ok m
      → str_eq m.memory_id i ≡ true
  unfolding load_memory find_memory
  loaded-name i s m e =
      (find-All (λ (n : MemoryRecord F). Unit) (λ (n : MemoryRecord F). str_eq n.memory_id i)
        s.memories m (found_ok i _ m e) (trivial s.memories)).1

  -- A store in which the memory is, and which has the use.
  record IsCounted (u : KnowledgeUseRecord) (i : String) (s : KnowledgeStore F) : Type 0 where
    memory : (m : MemoryRecord F) × (load_memory i s ≡ ok m)
    counted : any (same_use u) s.uses ≡ true

  append_use-IsCounted :
      (u : KnowledgeUseRecord) (i : String) (m : MemoryRecord F) (s : KnowledgeStore F)
      → load_memory i s ≡ ok m
      → same_use u u ≡ true
      → IsCounted u i (append_use u s)
  unfolding append_use load_memory
  append_use-IsCounted u i m s l r = record {
    memory = (m, l);
    counted = any-last (same_use u) s.uses u r;
  }

  then_append-IsCounted :
      (u : KnowledgeUseRecord) (i : String) (m n : MemoryRecord F)
      (r : Result StoreError (Unit {0}) × KnowledgeStore F)
      → r.0 ≡ ok tt
      → load_memory i r.1 ≡ ok m
      → same_use u u ≡ true
      → IsCounted u i (then_append u n r).1
  then_append-IsCounted u i m n (raise e, s) h l r = cc
  then_append-IsCounted u i m n (ok _, s) h l r = append_use-IsCounted u i m s l r

  save_memory-returns :
      (m : MemoryRecord F) (s : KnowledgeStore F)
      → s.frozen_records ≡ false
      → (save_memory m s).0 ≡ ok tt
  unfolding save_memory
  save_memory-returns m s h = rw h refl

  chosen :
      {A : Type 0} {u : KnowledgeUseRecord} {i : String} (b : Bool) (o p : A × KnowledgeStore F)
      → (b ≡ true → IsCounted u i o.1)
      → (b ≡ false → IsCounted u i p.1)
      → IsCounted u i (if b then o else p).1
  chosen true o p h k = h refl
  chosen false o p h k = k refl

  write_use-IsCounted :
      (now : String) (u : KnowledgeUseRecord) (i : String) (m : MemoryRecord F)
      (s : KnowledgeStore F)
      → load_memory i s ≡ ok m
      → same_use u u ≡ true
      → IsCounted u i (write_use now u m s).1
  unfolding write_use
  write_use-IsCounted now u i m s l r =
      let m' = apply_usage now u.use_type m in
      let same : str_eq m'.memory_id i ≡ true =
        rw (apply_usage-name now u.use_type m) (loaded-name i s m l) in
      let kept = then_append u m' (save_memory m' s) in
      let bare : Result StoreError (KnowledgeUseRecord × MemoryRecord F × Bool) × KnowledgeStore F =
        (ok (u, m, true), append_use u s) in
      chosen (use_exists u s) (ok (u, m, false), s) (if not s.frozen_records then kept else bare)
        (λ e. record { memory = (m, l); counted = unfold use_exists in ground arith })
        (λ e.
          chosen (not s.frozen_records) kept bare
            (λ f.
              let g : s.frozen_records ≡ false = ground arith in
              then_append-IsCounted u i m' m' (save_memory m' s) (save_memory-returns m' s g)
                (load_memory-save_memory i m' s g ∙ rw same refl) r)
            (λ f. append_use-IsCounted u i m s l r))

  loaded_use-unchanged :
      (a : String) (x : ℕ → String) (i : String) (t : KnowledgeUseType) (p k n : String)
      (q : Option String) (v : String) (l : Result StoreError (MemoryRecord F))
      (s : KnowledgeStore F)
      → ((m : MemoryRecord F) → l ≡ ok m → use_exists (memory_use a (x 0) m i t p k n q v) s ≡ true)
      → (loaded_use a x i t p k n q v l s).1 ≡ s
  unfolding write_use
  loaded_use-unchanged a x i t p k n q v (raise e) s h = refl
  loaded_use-unchanged a x i t p k n q v (ok m) s h = rw (h m refl) refl

  is_identified-given :
      (a x : String) (m : MemoryRecord F) (i : String) (t : KnowledgeUseType) (p k n : String)
      (q : Option String) (v : String)
      → str_eq p "" ≡ false
      → str_eq k "" ≡ false
      → str_eq n "" ≡ false
      → is_identified (memory_use a x m i t p k n q v) ≡ true
  is_identified-given a x m i t p k n q v hp hk hn = rw (hp, hp, hk, hn) refl

  use_exists-IsCounted :
      (u u' : KnowledgeUseRecord) (i : String) (s : KnowledgeStore F)
      → same_use u ≡ same_use u'
      → is_identified u' ≡ true
      → IsCounted u i s
      → use_exists u' s ≡ true
  unfolding use_exists
  use_exists-IsCounted u u' i s e h c =
      let f : any (same_use u') s.uses ≡ true = ap (λ g. any g s.uses) (sym e) ∙ c.counted in
      ground (arith, h, f)

  use_exists-again :
      (a b : String) (x y : ℕ → String) (i : String) (t : KnowledgeUseType) (p k n : String)
      (q q' : Option String) (v v' : String) (l : Result StoreError (MemoryRecord F))
      (s : KnowledgeStore F)
      → str_eq p "" ≡ false
      → str_eq k "" ≡ false
      → str_eq n "" ≡ false
      → load_memory i s ≡ l
      → (m : MemoryRecord F) → load_memory i (loaded_use a x i t p k n q v l s).1 ≡ ok m
      → use_exists (memory_use b (y 0) m i t p k n q' v') (loaded_use a x i t p k n q v l s).1
        ≡ true
  use_exists-again a b x y i t p k n q q' v v' (raise e) s hp hk hn h m l = cc
  use_exists-again a b x y i t p k n q q' v v' (ok m₀) s hp hk hn h m l =
      let u = memory_use a (x 0) m₀ i t p k n q v in
      let c =
        write_use-IsCounted (x 1) u i m₀ s h
          (same_use-same a a (x 0) (x 0) m₀ m₀ i t p k n q q v v hp) in
      use_exists-IsCounted u (memory_use b (y 0) m i t p k n q' v') i (write_use (x 1) u m₀ s).1
        (same_use-again a b (x 0) (y 0) m₀ m i t p k n q q' v v' hp)
        (is_identified-given b (y 0) m i t p k n q' v' hp hk hn) c

  -- A second report of the same use, of an item by a session of a task of a project that are all
  -- named, leaves the store as the first one left it, whatever its own identifier, time, reason and
  -- retrieval are.
  pub add_memory_usage-add_memory_usage :
      (a b : String) (x y : ℕ → String) (i : String) (t : KnowledgeUseType) (p k n : String)
      (q q' : Option String) (v v' : String) (s : KnowledgeStore F)
      → str_eq p "" ≡ false
      → str_eq k "" ≡ false
      → str_eq n "" ≡ false
      → (add_memory_usage b y i t p k n q' v' (add_memory_usage a x i t p k n q v s).1).1
        ≡ (add_memory_usage a x i t p k n q v s).1
  unfolding add_memory_usage
  add_memory_usage-add_memory_usage a b x y i t p k n q q' v v' s hp hk hn =
      loaded_use-unchanged b y i t p k n q' v'
        (load_memory i (add_memory_usage a x i t p k n q v s).1)
        (add_memory_usage a x i t p k n q v s).1
        (use_exists-again a b x y i t p k n q q' v v' (load_memory i s) s hp hk hn refl)
