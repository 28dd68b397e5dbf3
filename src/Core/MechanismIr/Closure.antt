-- ===== src/Core/MechanismIr/Closure.antt =====
-- `dependency_closure` returns what the selected mechanisms reach.
use mathlib.Core.Path.{subst}
use mathlib.Core.List.{reverse}
use auditspec.Prelude.{
  ℕ, zero, suc, ◌+◌, ◌≤◌, String, true, false, List, [], ◌∷◌, ◌≡◌, refl, sym, ap, ◌∙◌, ◌⊎◌, inl,
  inr, ◌↔◌, arith, Member, length, length-reverse, member-reverse, reverse-member, Bool-cases,
}
use auditspec.Prelude.Text.{contains, contains-member, text_order}
use auditspec.Prelude.Order.{sort_by, member-sort_by, sort_by-member}
use auditspec.Prelude.Sets.{missing, missing-cons_lt}
use auditspec.Prelude.Result.{Result, ok, err, ◌>>=◌, ok-injective}
use auditspec.Core.MechanismIr.{Dependencies, names, required_by, push_each, close, closure_of}
use auditspec.Core.MechanismIr.Relation.{Requires, Reaches, one, more}
use auditspec.Core.MechanismIr.Acyclic.{Listed, required_by-returns, length-names_le}

-- What the loop over the requirements of one mechanism does.
record Pushed (all : List String) (required closure pending : List String)
    (r : List String × List String) : Type 0 where
  keeps : (x : String) → Member x closure → Member x (r.0)
  enters : (x : String) → Member x required → Member x (r.0)
  origin : (x : String) → Member x (r.0) → Member x closure ⊎ (Member x required × Member x (r.1))
  stacked : (x : String) → Member x pending → Member x (r.1)
  stack_origin : (x : String) → Member x (r.1) → Member x pending ⊎ Member x required
  smaller : length (r.1) + missing all (r.0) ≤ length pending + missing all closure

push_known :
    (d : String) (ds closure pending : List String)
    → contains closure d ≡ true
    → push_each (d ∷ ds) closure pending ≡ push_each ds closure pending
unfolding push_each
push_known d ds closure pending h = rw (h, push_each)

push_new :
    (d : String) (ds closure pending : List String)
    → contains closure d ≡ false
    → push_each (d ∷ ds) closure pending ≡ push_each ds (d ∷ closure) (d ∷ pending)
unfolding push_each
push_new d ds closure pending h = rw (h, push_each)

push_each-Pushed :
    (all required closure pending : List String)
    → ((x : String) → Member x required → Member x all)
    → Pushed all required closure pending (push_each required closure pending)
unfolding push_each
push_each-Pushed all [] closure pending h = record {
  keeps = λ x m. m;
  enters = λ x m. absurd m;
  origin = λ x m. inl m;
  stacked = λ x m. m;
  stack_origin = λ x m. inl m;
  smaller = omega arith;
}
push_each-Pushed all (d ∷ ds) closure pending h = elim (Bool-cases (contains closure d)) [
  | inl t ↦
      let p = push_each-Pushed all ds closure pending (λ x m. h x (inr m)) in
      subst (Pushed all (d ∷ ds) closure pending) (sym (push_known d ds closure pending t))
        (record {
          keeps = p.keeps;
          enters = λ x m. elim m [
            | inl e ↦
                p.keeps x (subst (λ y. Member y closure) (sym e) (contains-member closure d t))
            | inr n ↦ p.enters x n
          ];
          origin = λ x m. elim (p.origin x m) [ inl c ↦ inl c | inr (n, s) ↦ inr (inr n, s) ];
          stacked = p.stacked;
          stack_origin = λ x m. elim (p.stack_origin x m) [ inl c ↦ inl c | inr n ↦ inr (inr n) ];
          smaller = p.smaller;
        })
  | inr f ↦
      let p = push_each-Pushed all ds (d ∷ closure) (d ∷ pending) (λ x m. h x (inr m)) in
      let fewer = missing-cons_lt d all closure (h d (inl refl)) f in
      subst (Pushed all (d ∷ ds) closure pending) (sym (push_new d ds closure pending f)) (record {
        keeps = λ x m. p.keeps x (inr m);
        enters = λ x m. elim m [ inl e ↦ p.keeps x (inl e) | inr n ↦ p.enters x n ];
        origin = λ x m. elim (p.origin x m) [
          | inl (inl e) ↦ inr (inl e, p.stacked x (inl e))
          | inl (inr c) ↦ inl c
          | inr (n, s) ↦ inr (inr n, s)
        ];
        stacked = λ x m. p.stacked x (inr m);
        stack_origin = λ x m. elim (p.stack_origin x m) [
          | inl (inl e) ↦ inr (inl e)
          | inl (inr c) ↦ inl c
          | inr n ↦ inr (inr n)
        ];
        smaller = omega (arith, p.smaller, fewer);
      })
]

module _ (ds : Dependencies) (listed : Listed ds) (selected : List String) where
  -- Some selected mechanism requires it, through any number of others.
  abbrev pub Below : String → Type 0
  Below x = (s : String) × Member s selected × Reaches ds s x

  abbrev Finished : List String → String → Type 0
  Finished closure x = (b : String) → Requires ds x b → Member b closure

  record Inv (closure pending : List String) : Type 0 where
    sound : (x : String) → Member x closure → Below x
    waiting : (x : String) → Member x pending → Member x selected ⊎ Member x closure
    started : (x : String) → Member x selected → Member x pending ⊎ Finished closure x
    finished : (x : String) → Member x closure → Member x pending ⊎ Finished closure x

  Below-step :
      (closure : List String) (x b : String)
      → ((y : String) → Member y closure → Below y)
      → Member x selected ⊎ Member x closure
      → Requires ds x b
      → Below b
  Below-step closure x b sound (inl m) r = (x, m, one r)
  Below-step closure x b sound (inr m) r = let (s, i, p) = sound x m in (s, i, more p r)

  Inv-next :
      (name : String) (required closure pending : List String)
      → required_by ds name ≡ ok required
      → Inv closure (name ∷ pending)
      → (r : List String × List String) → Pushed (names ds) required closure pending r
      → Inv (r.0) (r.1)
  Inv-next name required closure pending e i r p = record {
    sound = λ x m. elim (p.origin x m) [
      | inl c ↦ i.sound x c
      | inr (n, _) ↦ Below-step closure name x i.sound (i.waiting name (inl refl)) (required, e, n)
    ];
    waiting = λ x m. elim (p.stack_origin x m) [
      | inl q ↦ elim (i.waiting x (inr q)) [ inl s ↦ inl s | inr c ↦ inr (p.keeps x c) ]
      | inr n ↦ inr (p.enters x n)
    ];
    started = λ x m. still x (i.started x m);
    finished = λ x m. elim (p.origin x m) [ inl c ↦ still x (i.finished x c) | inr (_, s) ↦ inl s ];
  }
    where
      still :
          (x : String)
          → Member x (name ∷ pending) ⊎ Finished closure x
          → Member x (r.1) ⊎ Finished (r.0) x
      still x (inl (inl d)) = inr λ b (bs, q, m).
          p.enters b
            (subst (Member b) (ok-injective bs required (sym q ∙ ap (required_by ds) d ∙ e)) m)
      still x (inl (inr q)) = inl (p.stacked x q)
      still x (inr f) = inr (λ b s. p.keeps b (f b s))

  -- The closure holds exactly what is below the selection.
  abbrev pub Closes : Result (List String) → Type 0
  Closes (err e) = ⊥
  Closes (ok closure) = (x : String) → Member x closure ↔ Below x

  complete :
      (closure : List String)
      → Inv closure []
      → (s x : String) → Member s selected
      → Reaches ds s x
      → Member x closure
  complete closure i s x m (one r) = elim (i.started s m) [ inl z ↦ absurd z | inr f ↦ f x r ]
  complete closure i s x m (more p r) = elim (i.finished _ (complete closure i s _ m p)) [
    | inl z ↦ absurd z
    | inr f ↦ f x r
  ]

  close_next :
      (fuel : ℕ) (closure : List String) (name : String) (pending required : List String)
      → required_by ds name ≡ ok required
      → close ds (suc fuel) closure (name ∷ pending)
        ≡ close ds fuel
            ((push_each required closure pending).0)
            ((push_each required closure pending).1)
  unfolding close
  close_next fuel closure name pending required e = rw (e, close)

  close-Closes :
      ((x : String) → Member x selected → Member x (names ds))
      → (fuel : ℕ) (closure pending : List String) → Inv closure pending
      → length pending + missing (names ds) closure ≤ fuel
      → Closes (close ds fuel closure pending)
  unfolding close
  close-Closes inside fuel closure [] i h =
      λ x. (i.sound x, λ (s, m, p). complete closure i s x m p)
  close-Closes inside zero closure (name ∷ pending) i h = absurd (omega arith)
  close-Closes inside (suc fuel) closure (name ∷ pending) i h =
      let (required, e) = required_by-returns ds name (known (i.waiting name (inl refl))) in
      let p =
        push_each-Pushed (names ds) required closure pending
          (λ x m. listed name x (required, e, m)) in
      subst Closes (sym (close_next fuel closure name pending required e)) (
        close-Closes inside fuel ((push_each required closure pending).0)
          ((push_each required closure pending).1)
          (Inv-next name required closure pending e i (push_each required closure pending) p)
          (omega (arith, p.smaller, h)))
    where
      known : Member name selected ⊎ Member name closure → Member name (names ds)
      known (inl m) = inside name m
      known (inr m) = let (s, j, p) = i.sound name m in reached p
        where
          reached : {s x : String} → Reaches ds s x → Member x (names ds)
          reached (one r) = listed _ _ r
          reached (more p r) = listed _ _ r

  -- The closure of mechanisms is returned, and holds exactly those that some selected one requires,
  -- directly or through others; the selected ones only if another of them requires them.
  pub closure_of-Closes :
      ((x : String) → Member x selected → Member x (names ds)) → Closes (closure_of ds selected)
  unfolding closure_of
  closure_of-Closes inside = sorted (close ds (length selected + length ds) [] (reverse selected)) (
      close-Closes inside (length selected + length ds) [] (reverse selected)
        (record {
          sound = λ x m. absurd m;
          waiting = λ x m. inl (reverse-member x selected m);
          started = λ x m. inl (member-reverse x selected m);
          finished = λ x m. absurd m;
        })
        (omega (arith, length-reverse selected, length-names_le ds)))
    where
      sorted :
          (r : Result (List String))
          → Closes r
          → Closes (r >>= λ closure. ok (sort_by text_order (λ s. s) closure))
      sorted (err e) c = c
      sorted (ok closure) c = λ x. (
        λ m. (c x).0 (sort_by-member text_order (λ s. s) x closure m),
        λ b. member-sort_by text_order (λ s. s) x closure ((c x).1 b),
      )
