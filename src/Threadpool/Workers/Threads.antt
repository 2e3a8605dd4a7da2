-- ===== src/Threadpool/Workers/Threads.antt =====
-- Lists of threads of src/utils/threadpool.c: how many are in a phase, and what a signal changes.
use baka_dns.Base.{
  ℕ, suc, ◌+◌, ◌≤◌, ◌≡◌, refl, sym, ap, ◌∙◌, subst, Bool, true, false, List, [], ◌∷◌, ◌++◌, length,
  arith, All, All-append, append_assoc, inl, inr, ◌⊎◌,
}
use baka_dns.Threadpool.Workers.{
  Phase, looking, asleep, taken, working, IsAwake, Signalled, nobody, somebody, SignalledIf,
}

module _ {Job : Type 0} where
  -- How many threads look for a job, sleep, and are between the two updates of the count.
  abbrev pub lookers : List (Phase Job) → ℕ
  lookers [] = 0
  lookers (looking ∷ ts) = suc (lookers ts)
  lookers (asleep ∷ ts) = lookers ts
  lookers (taken job ∷ ts) = lookers ts
  lookers (working job ∷ ts) = lookers ts

  abbrev pub sleepers : List (Phase Job) → ℕ
  sleepers [] = 0
  sleepers (looking ∷ ts) = sleepers ts
  sleepers (asleep ∷ ts) = suc (sleepers ts)
  sleepers (taken job ∷ ts) = sleepers ts
  sleepers (working job ∷ ts) = sleepers ts

  abbrev pub busy : List (Phase Job) → ℕ
  busy [] = 0
  busy (looking ∷ ts) = busy ts
  busy (asleep ∷ ts) = busy ts
  busy (taken job ∷ ts) = busy ts
  busy (working job ∷ ts) = suc (busy ts)

  -- The counts of a list, and of its parts.
  pub record Adds (xs ys : List (Phase Job)) : Type 0 where
    pub lookers_lem : lookers (xs ++ ys) ≡ lookers xs + lookers ys
    pub sleepers_lem : sleepers (xs ++ ys) ≡ sleepers xs + sleepers ys
    pub busy_lem : busy (xs ++ ys) ≡ busy xs + busy ys
    pub length_lem : length (xs ++ ys) ≡ length xs + length ys

  pub counts-append : (xs ys : List (Phase Job)) → Adds xs ys
  counts-append [] ys = record {
    lookers_lem = omega arith;
    sleepers_lem = omega arith;
    busy_lem = omega arith;
    length_lem = omega arith;
  }
  counts-append (looking ∷ xs) ys =
      let a = counts-append xs ys in
      record {
        lookers_lem = omega (arith, a.lookers_lem);
        sleepers_lem = a.sleepers_lem;
        busy_lem = a.busy_lem;
        length_lem = omega (arith, a.length_lem);
      }
  counts-append (asleep ∷ xs) ys =
      let a = counts-append xs ys in
      record {
        lookers_lem = a.lookers_lem;
        sleepers_lem = omega (arith, a.sleepers_lem);
        busy_lem = a.busy_lem;
        length_lem = omega (arith, a.length_lem);
      }
  counts-append (taken job ∷ xs) ys =
      let a = counts-append xs ys in
      record {
        lookers_lem = a.lookers_lem;
        sleepers_lem = a.sleepers_lem;
        busy_lem = a.busy_lem;
        length_lem = omega (arith, a.length_lem);
      }
  counts-append (working job ∷ xs) ys =
      let a = counts-append xs ys in
      record {
        lookers_lem = a.lookers_lem;
        sleepers_lem = a.sleepers_lem;
        busy_lem = omega (arith, a.busy_lem);
        length_lem = omega (arith, a.length_lem);
      }

  pub busy_le : (ts : List (Phase Job)) → busy ts ≤ length ts
  busy_le [] = omega arith
  busy_le (looking ∷ ts) = omega (arith, busy_le ts)
  busy_le (asleep ∷ ts) = omega (arith, busy_le ts)
  busy_le (taken job ∷ ts) = omega (arith, busy_le ts)
  busy_le (working job ∷ ts) = omega (arith, busy_le ts)

  -- What a signal changes: a sleeping thread looks, if there is one.
  pub record Woken (ts ts' : List (Phase Job)) : Type 0 where
    pub same_length : length ts' ≡ length ts
    pub same_busy : busy ts' ≡ busy ts
    pub lookers_le : lookers ts ≤ lookers ts'
    pub sleepers_le : sleepers ts' ≤ sleepers ts
    pub one : (sleepers ts' ≡ 0) ⊎ (lookers ts' ≡ suc (lookers ts))

  no_sleepers : (ts : List (Phase Job)) → All IsAwake ts → sleepers ts ≡ 0
  no_sleepers [] h = refl
  no_sleepers (looking ∷ ts) h = no_sleepers ts h.1
  no_sleepers (asleep ∷ ts) h = absurd h.0
  no_sleepers (taken job ∷ ts) h = no_sleepers ts h.1
  no_sleepers (working job ∷ ts) h = no_sleepers ts h.1

  pub Signalled-Woken : {ts ts' : List (Phase Job)} → Signalled ts ts' → Woken ts ts'
  Signalled-Woken {ts} (nobody h) = record {
    same_length = refl;
    same_busy = refl;
    lookers_le = omega arith;
    sleepers_le = omega arith;
    one = inl (no_sleepers ts h);
  }
  Signalled-Woken (somebody before after) =
      let a = counts-append before (asleep ∷ after) in
      let b = counts-append before (looking ∷ after) in
      record {
        same_length = omega (arith, a.length_lem, b.length_lem);
        same_busy = omega (arith, a.busy_lem, b.busy_lem);
        lookers_le = omega (arith, a.lookers_lem, b.lookers_lem);
        sleepers_le = omega (arith, a.sleepers_lem, b.sleepers_lem);
        one = inr (omega (arith, a.lookers_lem, b.lookers_lem));
      }

  pub SignalledIf-Woken :
      (b : Bool) (ts ts' : List (Phase Job))
      → SignalledIf b ts ts'
      → (length ts' ≡ length ts)
        × (busy ts' ≡ busy ts)
        × (lookers ts ≤ lookers ts')
        × (sleepers ts' ≤ sleepers ts)
  SignalledIf-Woken true ts ts' k =
      let w = Signalled-Woken k in (w.same_length, w.same_busy, w.lookers_le, w.sleepers_le)
  SignalledIf-Woken false ts ts' e = (
    ap length (sym e),
    ap busy (sym e),
    omega (arith, ap lookers e),
    omega (arith, ap sleepers e),
  )

  -- A property of all threads, when one changes or ends, or a signal is sent.
  module _ (P : Phase Job → Type 0) where
    pub All-swap :
        (before after : List (Phase Job)) (t u : Phase Job)
        → All P (before ++ (t ∷ after))
        → (P t → P u)
        → All P (before ++ (u ∷ after))
    All-swap [] after t u h f = (f h.0, h.1)
    All-swap (x ∷ before) after t u h f = (h.0, All-swap before after t u h.1 f)

    pub All-remove :
        (before after : List (Phase Job)) (t : Phase Job)
        → All P (before ++ (t ∷ after))
        → All P (before ++ after)
    All-remove [] after t h = h.1
    All-remove (x ∷ before) after t h = (h.0, All-remove before after t h.1)

    pub Signalled-All :
        {ts ts' : List (Phase Job)} → P looking → Signalled ts ts' → All P ts → All P ts'
    Signalled-All p (nobody k) h = h
    Signalled-All p (somebody before after) h = All-swap before after asleep looking h (λ _. p)

    pub SignalledIf-All :
        (b : Bool) (ts ts' : List (Phase Job))
        → P looking
        → SignalledIf b ts ts'
        → All P ts
        → All P ts'
    SignalledIf-All true ts ts' p k h = Signalled-All p k h
    SignalledIf-All false ts ts' p e h = subst (All P) e h

  find_asleep :
      (ts : List (Phase Job))
      → All IsAwake ts
        ⊎ ((before : List (Phase Job)) × (after : List (Phase Job)) × (ts
              ≡ before ++ (asleep ∷ after)))
  find_asleep [] = inl tt
  find_asleep (asleep ∷ ts) = inr ([], ts, refl)
  find_asleep (looking ∷ ts) = elim (find_asleep ts) [
    | inl h ↦ inl (tt, h)
    | inr (before, after, e) ↦ inr (looking ∷ before, after, ap (◌∷◌ looking) e)
  ]
  find_asleep (taken job ∷ ts) = elim (find_asleep ts) [
    | inl h ↦ inl (tt, h)
    | inr (before, after, e) ↦ inr (taken job ∷ before, after, ap (◌∷◌ (taken job)) e)
  ]
  find_asleep (working job ∷ ts) = elim (find_asleep ts) [
    | inl h ↦ inl (tt, h)
    | inr (before, after, e) ↦ inr (working job ∷ before, after, ap (◌∷◌ (working job)) e)
  ]

  -- A signal can be sent, and a thread that looks for a job goes on to look.
  pub signal_around :
      (before after : List (Phase Job))
      → (before' : List (Phase Job)) × (after' : List (Phase Job)) × Signalled
          (before ++ (looking ∷ after))
          (before' ++ (looking ∷ after'))
  signal_around before after = elim (find_asleep before) [
    | inr (pre, post, e) ↦
        let rest = looking ∷ after in
        let from : before ++ rest ≡ pre ++ (asleep ∷ (post ++ rest)) =
          ap (λ b. b ++ rest) e ∙ append_assoc pre (asleep ∷ post) rest in
        let to : pre ++ (looking ∷ (post ++ rest)) ≡ (pre ++ (looking ∷ post)) ++ rest =
          sym (append_assoc pre (looking ∷ post) rest) in
        (
          pre ++ (looking ∷ post),
          after,
          subst (λ xs. Signalled xs ((pre ++ (looking ∷ post)) ++ rest)) (sym from)
              (subst (Signalled (pre ++ (asleep ∷ (post ++ rest)))) to
                (somebody pre (post ++ rest))),
        )
    | inl h ↦ elim (find_asleep after) [
      | inl k ↦ (before, after, nobody (All-append IsAwake before (looking ∷ after) h (tt, k)))
      | inr (pre, post, e) ↦
          let front = before ++ (looking ∷ pre) in
          let from : before ++ (looking ∷ after) ≡ front ++ (asleep ∷ post) =
            ap (λ b. before ++ (looking ∷ b)) e
            ∙ sym (append_assoc before (looking ∷ pre) (asleep ∷ post)) in
          let to : front ++ (looking ∷ post) ≡ before ++ (looking ∷ (pre ++ (looking ∷ post))) =
            append_assoc before (looking ∷ pre) (looking ∷ post) in
          (
            before,
            pre ++ (looking ∷ post),
            subst (λ xs. Signalled xs (before ++ (looking ∷ (pre ++ (looking ∷ post))))) (sym from)
                (subst (Signalled (front ++ (asleep ∷ post))) to (somebody front post)),
          )
    ]
  ]

  pub signal_around_if :
      (b : Bool) (before after : List (Phase Job))
      → (before' : List (Phase Job)) × (after' : List (Phase Job)) × SignalledIf b
          (before ++ (looking ∷ after))
          (before' ++ (looking ∷ after'))
  signal_around_if true before after = signal_around before after
  signal_around_if false before after = (before, after, refl)
