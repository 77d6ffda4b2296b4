-- ===== src/Config/Directives/FirstReturn.antt =====
-- src/config/mod.rs: the action of a block of directives.
use rgnix.Base.{
  Bool-cases, Option-cases, any, Text, codes, text_eq_iff, parse_uint, Result, ok, err, ℕ, ◌≤◌,
  String, ◌≡◌, refl, sym, ap, ◌∙◌, subst, ◌≢◌, ◌⊎◌, inl, inr, Bool, true, false, Option, none, some,
  List, [], ◌∷◌, ◌++◌, arith,
}
use rgnix.Config.Policies.{Policies, set_policy, apply_policy}
use rgnix.Config.Directives.{
  Action, return, Context, Leaf, Readers, Scope, Checked, read_with, when, is_return, with_action,
  respond, is_name,
}
use rgnix.Config.Directives.Apply.{
  content, upstream, limits, serving, directive, with_policies, apply_leaf, apply_all,
}
use rgnix.Config.Directives.Kept.{
  Similar, Gives, gives, fails, GivesSome, not_here, here, read_with-Gives, when-Gives,
  content-Gives, upstream-Gives, limits-Gives, serving-Gives,
}

-- The text of a `return`.
abbrev pub text_of : List Text → Text
text_of [] = []
text_of (code ∷ []) = []
text_of (code ∷ text ∷ args) = text

-- The status that a `return` names.
abbrev pub code_of : List Text → Text
code_of [] = []
code_of (code ∷ args) = code

read_with-given :
    (p : Scope → Type 0) (o : Option ℕ) (f : ℕ → Checked)
    → ((a : ℕ) → o ≡ some a → Gives p (f a))
    → Gives p (read_with o f)
unfolding read_with
read_with-given p none f h = fails _
read_with-given p (some a) f h = h a refl

Result-cases : (d : Checked) → ((t : Scope) × (d ≡ ok t)) ⊎ ((e : String) × (d ≡ err e))
Result-cases (ok t) = inl (t, refl)
Result-cases (err e) = inr (e, refl)

given : (p : Scope → Type 0) (d : Checked) (t : Scope) → Gives p d → d ≡ ok t → p t
given p _ t (gives u h) is = subst p (ap (λ d. elim d [ ok v ↦ v | err e ↦ u ]) is) h
given p _ t (fails e) is = absurd (ground (is, arith))

or_else-Gives :
    (p : Scope → Type 0) (o : Option Checked) (rest : Checked)
    → GivesSome p o
    → Gives p rest
    → Gives p (elim o [ some done ↦ done | none ↦ rest ])
or_else-Gives p _ rest not_here h = h
or_else-Gives p _ rest (here done k) h = k

checked_when_lem :
    (p : Scope → Type 0) (b : Bool) (why : String) (done : Checked)
    → (b ≡ true → Gives p done)
    → Gives p (when b why done)
unfolding when
checked_when_lem p true why done h = h refl
checked_when_lem p false why done h = fails why

stay_lem :
    (s : Scope) (a : Action) → is_return s.action ≡ true → (with_action a s).action ≡ s.action
stay_lem s a has = rw has refl

set_lem : (s : Scope) (a : Action) → is_return s.action ≡ false → (with_action a s).action ≡ some a
set_lem s a free = rw free refl

respond-Stays :
    (c : Context) (args : List Text) (s : Scope)
    → is_return s.action ≡ true
    → Gives (λ u. u.action ≡ s.action) (respond c args s)
respond-Stays c [] s has = fails _
respond-Stays c (code ∷ []) s has =
    when-Gives (λ u. u.action ≡ s.action) _ _ _
      (read_with-Gives (λ u. u.action ≡ s.action) _ _
        (λ status.
          when-Gives (λ u. u.action ≡ s.action) _ _ _
            (gives _ (stay_lem s (return status []) has))))
respond-Stays c (code ∷ text ∷ []) s has =
    when-Gives (λ u. u.action ≡ s.action) _ _ _
      (read_with-Gives (λ u. u.action ≡ s.action) _ _
        (λ status.
          when-Gives (λ u. u.action ≡ s.action) _ _ _
            (when-Gives (λ u. u.action ≡ s.action) _ _ _
              (gives _ (stay_lem s (return status text) has)))))
respond-Stays c (code ∷ text ∷ more ∷ args) s has = fails _

-- The action is the `return` of these arguments, with the status that the first of them names.
abbrev pub Returns : List Text → Scope → Type 0
Returns args t =
    (status : ℕ) × ((parse_uint 65535 (code_of args) ≡ some status)
      × ((200 ≤ status) × ((status ≤ 599) × (t.action ≡ some (return status (text_of args))))))

respond-Returns :
    (c : Context) (args : List Text) (s : Scope)
    → is_return s.action ≡ false
    → Gives (Returns args) (respond c args s)
respond-Returns c [] s free = fails _
respond-Returns c (code ∷ []) s free =
    let goal = λ (t : Scope). Returns (code ∷ []) t in
    when-Gives goal _ _ _ (
      read_with-given goal _ _ (λ status named. checked_when_lem goal _ _ _ (λ fits. gives _ (
        status,
        (named, (ground (fits, arith), (ground (fits, arith), set_lem s (return status []) free))),
      ))))
respond-Returns c (code ∷ text ∷ []) s free =
    let goal = λ (t : Scope). Returns (code ∷ text ∷ []) t in
    when-Gives goal _ _ _ (
      read_with-given goal _ _ (λ status named. checked_when_lem goal _ _ _ (λ fits.
        when-Gives goal _ _ _ (
          gives _ (
            status,
            (
              named,
              (ground (fits, arith), (ground (fits, arith), set_lem s (return status text) free)),
            ),
          )))))
respond-Returns c (code ∷ text ∷ more ∷ args) s free = fails _

module _ (r : Readers) (c : Context) where
  directive-Gives :
      (n : Leaf) (s : Scope) → is_name "return" n ≡ false → Gives (Similar s) (directive r c n s)
  unfolding directive
  directive-Gives n s other = rw other (
      or_else-Gives (Similar s) (content r c n s) _ (content-Gives r c n s) (
        or_else-Gives (Similar s) (upstream r c n s) _ (upstream-Gives r c n s) (
          or_else-Gives (Similar s) (limits r c n s) _ (limits-Gives r c n s)
            (or_else-Gives (Similar s) (serving r c n s) _ (serving-Gives r c n s) (fails _)))))

  -- Policies have other names, and leave the action.
  apply_leaf-directive :
      (n : Leaf) (s : Scope) → is_name "return" n ≡ true → apply_leaf r c n s ≡ directive r c n s
  unfolding apply_leaf apply_policy set_policy
  apply_leaf-directive n s returns =
      let same : n.name ≡ codes "return" = (text_eq_iff n.name (codes "return")).0 returns in
      rw same refl

  with_policies-Gives :
      (s : Scope) (done : Result String (Policies Text))
      → Gives (Similar s) (with_policies r c s done)
  with_policies-Gives s (err e) = fails e
  with_policies-Gives s (ok p) = gives _ (inl refl)

  apply_leaf-Gives :
      (n : Leaf) (s : Scope) → is_name "return" n ≡ false → Gives (Similar s) (apply_leaf r c n s)
  unfolding apply_leaf
  apply_leaf-Gives n s other =
      elim (Option-cases (apply_policy r.network r.header_name n.name n.args s.policies)) [
        | inl another ↦ rw (apply_leaf, another) (directive-Gives n s other)
        | inr (done, policy) ↦ rw (apply_leaf, policy) (with_policies-Gives s done)
      ]

  responds :
      (n : Leaf) (s t : Scope)
      → is_name "return" n ≡ true
      → apply_leaf r c n s ≡ ok t
      → respond c n.args s ≡ ok t
  unfolding directive
  responds n s t returns done =
      let k : directive r c n s ≡ ok t = sym (apply_leaf-directive n s returns) ∙ done in
      rw returns at k

  apply_leaf-Similar :
      (n : Leaf) (s t : Scope)
      → is_name "return" n ≡ false
      → apply_leaf r c n s ≡ ok t
      → Similar s t
  apply_leaf-Similar n s t other done =
      given (Similar s) (apply_leaf r c n s) t (apply_leaf-Gives n s other) done

  -- A `return` beside one that stands before it.
  return_stays :
      (n : Leaf) (s t : Scope)
      → is_return s.action ≡ true
      → is_name "return" n ≡ true
      → apply_leaf r c n s ≡ ok t
      → t.action ≡ s.action
  return_stays n s t has returns done =
      given (λ u. u.action ≡ s.action) (respond c n.args s) t (respond-Stays c n.args s has)
        (responds n s t returns done)

  return_sets :
      (n : Leaf) (s t : Scope)
      → is_return s.action ≡ false
      → is_name "return" n ≡ true
      → apply_leaf r c n s ≡ ok t
      → Returns n.args t
  return_sets n s t free returns done =
      given (Returns n.args) (respond c n.args s) t (respond-Returns c n.args s free)
        (responds n s t returns done)

  still_free :
      (n : Leaf) (s t : Scope)
      → is_name "return" n ≡ false
      → is_return s.action ≡ false
      → apply_leaf r c n s ≡ ok t
      → is_return t.action ≡ false
  still_free n s t other free done = elim (apply_leaf-Similar n s t other done) [
    | inl same ↦ rw same free
    | inr (u, still) ↦ still
  ]

  -- Once a block has a `return`, its action stays.
  apply_leaf-return :
      (n : Leaf) (s t : Scope)
      → is_return s.action ≡ true
      → apply_leaf r c n s ≡ ok t
      → t.action ≡ s.action
  apply_leaf-return n s t has done = elim (Bool-cases (is_name "return" n)) [
    | inl returns ↦ return_stays n s t has returns done
    | inr other ↦ elim (apply_leaf-Similar n s t other done) [
      | inl same ↦ same
      | inr (none_there, u) ↦ absurd (ground (has, none_there, arith))
    ]
  ]

  apply_step :
      (n : Leaf) (ns : List Leaf) (s u : Scope)
      → apply_leaf r c n s ≡ ok u
      → apply_all r c (n ∷ ns) s ≡ apply_all r c ns u
  unfolding apply_all
  apply_step n ns s u is = rw (apply_all, is) refl

  apply_fails :
      (n : Leaf) (ns : List Leaf) (s t : Scope) (e : String)
      → apply_leaf r c n s ≡ err e
      → apply_all r c (n ∷ ns) s ≢ ok t
  unfolding apply_all
  apply_fails n ns s t e is done = ground (rw (apply_all, is) at done, arith)

  apply_all-return :
      (ns : List Leaf) (s t : Scope)
      → is_return s.action ≡ true
      → apply_all r c ns s ≡ ok t
      → t.action ≡ s.action
  unfolding apply_all
  apply_all-return [] s t has done =
      ap (λ d. elim d [ ok u ↦ u.action | err e ↦ s.action ]) (sym done)
  apply_all-return (n ∷ ns) s t has done = elim (Result-cases (apply_leaf r c n s)) [
    | inr (e, bad) ↦ absurd (apply_fails n ns s t e bad done)
    | inl (u, good) ↦
        let same : u.action ≡ s.action = apply_leaf-return n s u has good in
        apply_all-return ns u t (rw same has) (sym (apply_step n ns s u good) ∙ done) ∙ same
  ]

  -- The first `return` of a block decides its action: where directives without a block, other than
  -- those of src/config/security.rs, are accepted, the action is that `return`, with the status
  -- that its first argument names, which is from 200 to 599, and the text of its second, whatever stands before and after it, unless an enclosing block has a `return`
  -- already.
  pub apply_all-first :
      (before after : List Leaf) (n : Leaf) (s t : Scope)
      → any (is_name "return") before ≡ false
      → is_name "return" n ≡ true
      → is_return s.action ≡ false
      → apply_all r c (before ++ n ∷ after) s ≡ ok t
      → Returns n.args t
  unfolding apply_all
  apply_all-first [] after n s t none_before returns free done =
      elim (Result-cases (apply_leaf r c n s)) [
        | inr (e, bad) ↦ absurd (apply_fails n after s t e bad done)
        | inl (u, good) ↦
            let d = return_sets n s u free returns good in
            (
              d.0,
              (
                d.1.0,
                (
                  d.1.1.0,
                  (
                    d.1.1.1.0,
                    apply_all-return after u t (rw (d.1.1.1.1) refl)
                          (sym (apply_step n after s u good) ∙ done)
                        ∙ d.1.1.1.1,
                  ),
                ),
              ),
            )
      ]
  apply_all-first (b ∷ before) after n s t none_before returns free done =
      elim (Result-cases (apply_leaf r c b s)) [
        | inr (e, bad) ↦ absurd (apply_fails b (before ++ n ∷ after) s t e bad done)
        | inl (u, good) ↦
            apply_all-first before after n u t (ground (none_before, arith)) returns
              (still_free b s u (ground (none_before, arith)) free good)
              (sym (apply_step b (before ++ n ∷ after) s u good) ∙ done)
      ]
