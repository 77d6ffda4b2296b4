-- ===== src/Config/Directives/Kept.antt =====
-- src/config/mod.rs: directives and the action of their block.
use rgnix.Base.{
  Bool-cases, Text, codes, ok, err, ℕ, String, ◌≡◌, refl, ◌⊎◌, inl, inr, Bool, true, false, Option,
  none, some, List, [], ◌∷◌, ◌++◌,
}
use rgnix.Config.Values.{size, duration, switch, variables_fit}
use rgnix.Config.Directives.{
  proxy, Context, Leaf, Readers, Scope, Checked, with_one, read_with, when, on_name, is_return,
  with_action, seconds, switched, header_added, add_header, access_log, log_at, error_log,
}
use rgnix.Config.Directives.Apply.{content, upstream, limits, serving}

-- The action stays, or neither the old one nor the new one is a `return`.
abbrev pub Similar : Scope → Scope → Type 0
Similar s t = (t.action ≡ s.action) ⊎ ((is_return s.action ≡ false) × (is_return t.action ≡ false))

pub data Gives (p : Scope → Type 0) : Checked → Type 0 where
  gives : (t : Scope) → p t → Gives p (ok t)
  fails : (e : String) → Gives p (err e)

pub data GivesSome (p : Scope → Type 0) : Option Checked → Type 0 where
  not_here : GivesSome p none
  here : (done : Checked) → Gives p done → GivesSome p (some done)

on_name-Gives :
    (p : Scope → Type 0) (b : Bool) (done : Checked) (rest : Option Checked)
    → Gives p done
    → GivesSome p rest
    → GivesSome p (on_name b done rest)
unfolding on_name
on_name-Gives p true done rest h k = here done h
on_name-Gives p false done rest h k = k

with_one-Gives :
    (p : Scope → Type 0) (args : List Text) (f : Text → Checked)
    → ((a : Text) → Gives p (f a))
    → Gives p (with_one args f)
unfolding with_one
with_one-Gives p [] f h = fails _
with_one-Gives p (a ∷ []) f h = h a
with_one-Gives p (a ∷ b ∷ args) f h = fails _

pub read_with-Gives {ℓ} :
    {A : Type ℓ} (p : Scope → Type 0) (o : Option A) (f : A → Checked)
    → ((a : A) → Gives p (f a))
    → Gives p (read_with o f)
unfolding read_with
read_with-Gives p none f h = fails _
read_with-Gives p (some a) f h = h a

pub when-Gives :
    (p : Scope → Type 0) (b : Bool) (why : String) (done : Checked)
    → Gives p done
    → Gives p (when b why done)
unfolding when
when-Gives p true why done h = h
when-Gives p false why done h = fails _

seconds-Gives :
    (p : Scope → Type 0) (args : List Text) (f : ℕ → Scope)
    → ((t : ℕ) → p (f t))
    → Gives p (seconds args f)
unfolding seconds
seconds-Gives p args f h = with_one-Gives p args _ λ a.
    elim (duration a) as (λ d. Gives p (elim d [ err e ↦ err e | ok ms ↦ ok (f ms) ])) [
      | err e ↦ fails e
      | ok ms ↦ gives (f ms) (h ms)
    ]

switched-Gives :
    (p : Scope → Type 0) (args : List Text) (f : Bool → Scope)
    → ((on : Bool) → p (f on))
    → Gives p (switched args f)
unfolding switched
switched-Gives p args f h = with_one-Gives p args _ λ a.
    elim (switch a) as (λ d. Gives p (elim d [ err e ↦ err e | ok on ↦ ok (f on) ])) [
      | err e ↦ fails e
      | ok on ↦ gives (f on) (h on)
    ]

proxy_lem : (a : Text) (s : Scope) → Similar s (with_action (proxy a none) s)
proxy_lem a s = elim (Bool-cases (is_return s.action)) [
  | inl stays ↦ rw stays (inl refl)
  | inr other ↦ rw other (inr (refl, refl))
]

size_lem :
    (a : Text) (s : Scope)
    → Gives
        (Similar s)
        (elim (size a) [ err e ↦ err e | ok bytes ↦ ok (record s { max_body = bytes }) ])
size_lem a s =
    elim (size a)
      as (λ d.
        Gives (Similar s)
          (elim d [ err e ↦ err e | ok bytes ↦ ok (record s { max_body = bytes }) ])) [
            | err e ↦ fails e
            | ok bytes ↦ gives _ (inl refl)
          ]

module _ (r : Readers) where
  headers_lem :
      (args : List Text) (s : Scope)
      → Gives (Similar s) (elim args [
        | [] ↦ err "proxy_set_header expects name value"
        | name ∷ rest ↦ with_one rest λ value.
            when (r.header_name name) "invalid HTTP header name" (
              when
                (variables_fit none value)
                "unsupported variable"
                (ok (record s { request_headers = s.request_headers ++ (name, value) ∷ [] })))
      ])
  headers_lem [] s = fails _
  headers_lem (name ∷ rest) s =
      with_one-Gives (Similar s) rest _
        λ value. when-Gives (Similar s) _ _ _ (when-Gives (Similar s) _ _ _ (gives _ (inl refl)))

  header_added-Gives :
      (name value : Text) (always : Bool) (s : Scope)
      → Gives (Similar s) (header_added r name value always s)
  header_added-Gives name value always s =
      when-Gives (Similar s) _ _ _ (when-Gives (Similar s) _ _ _ (gives _ (inl refl)))

  add_header-Gives : (args : List Text) (s : Scope) → Gives (Similar s) (add_header r args s)
  add_header-Gives [] s = fails _
  add_header-Gives (name ∷ []) s = fails _
  add_header-Gives (name ∷ value ∷ []) s = header_added-Gives name value false s
  add_header-Gives (name ∷ value ∷ word ∷ []) s =
      when-Gives (Similar s) _ _ _ (header_added-Gives name value true s)
  add_header-Gives (name ∷ value ∷ word ∷ more ∷ args) s = fails _

  access_log-Gives : (args : List Text) (s : Scope) → Gives (Similar s) (access_log r args s)
  access_log-Gives [] s = fails _
  access_log-Gives (a ∷ []) s = gives _ (inl refl)
  access_log-Gives (a ∷ format ∷ []) s = when-Gives (Similar s) _ _ _ (gives _ (inl refl))
  access_log-Gives (a ∷ format ∷ more ∷ args) s = fails _

  log_at-Gives : (a level : Text) (s : Scope) → Gives (Similar s) (log_at r a level s)
  log_at-Gives a level s =
      when-Gives (Similar s) _ _ _ (read_with-Gives (Similar s) _ _ (λ o. gives _ (inl refl)))

  error_log-Gives : (args : List Text) (s : Scope) → Gives (Similar s) (error_log r args s)
  error_log-Gives [] s = fails _
  error_log-Gives (a ∷ []) s = log_at-Gives a (codes "error") s
  error_log-Gives (a ∷ level ∷ []) s = log_at-Gives a level s
  error_log-Gives (a ∷ level ∷ more ∷ args) s = fails _

module _ (r : Readers) (c : Context) where
  pub content-Gives : (n : Leaf) (s : Scope) → GivesSome (Similar s) (content r c n s)
  unfolding content
  content-Gives n s =
      let p = Similar s in
      on_name-Gives p _ _ _ (with_one-Gives p _ _ (λ a. when-Gives p _ _ _ (gives _ (inl refl)))) (
        on_name-Gives p _ _ _ (with_one-Gives p _ _ (λ a. when-Gives p _ _ _ (gives _ (inl refl))))
          (on_name-Gives p _ _ _ (when-Gives p _ _ _ (when-Gives p _ _ _ (gives _ (inl refl)))) (
            on_name-Gives p _ _ _ (when-Gives p _ _ _ (gives _ (inl refl))) (
              on_name-Gives p _ _ _
                (with_one-Gives p _ _ (λ a. when-Gives p _ _ _ (gives _ (inl refl))))
                (on_name-Gives p _ _ _ (headers_lem r n.args s)
                  (on_name-Gives p _ _ _ (add_header-Gives r n.args s) (not_here)))))))

  pub upstream-Gives : (n : Leaf) (s : Scope) → GivesSome (Similar s) (upstream r c n s)
  unfolding upstream
  upstream-Gives n s =
      let p = Similar s in
      on_name-Gives p _ _ _
        (with_one-Gives p _ _ (λ a. read_with-Gives p _ _ (λ p. gives _ (inl refl))))
        (on_name-Gives p _ _ _ (with_one-Gives p _ _ (λ a. gives _ (inl refl))) (
          on_name-Gives p _ _ _ (with_one-Gives p _ _ (λ a. gives _ (inl refl))) (
            on_name-Gives p _ _ _
              (with_one-Gives p _ _ (λ a. when-Gives p _ _ _ (gives _ (inl refl))))
              (on_name-Gives p _ _ _
                (with_one-Gives p _ _ (λ a. read_with-Gives p _ _ (λ ca. gives _ (inl refl))))
                (on_name-Gives p _ _ _
                  (with_one-Gives p _ _ (λ a. when-Gives p _ _ _ (gives _ (inl refl))))
                  (on_name-Gives p _ _ _
                    (with_one-Gives p _ _ (λ a.
                      when-Gives p _ _ _
                        (when-Gives p _ _ _ (when-Gives p _ _ _ (gives _ (proxy_lem a s))))))
                    (not_here)))))))

  pub limits-Gives : (n : Leaf) (s : Scope) → GivesSome (Similar s) (limits r c n s)
  unfolding limits
  limits-Gives n s =
      let p = Similar s in
      on_name-Gives p _ _ _ (with_one-Gives p _ _ (λ a. size_lem a s)) (
        on_name-Gives p _ _ _ (read_with-Gives p _ _ (λ i. gives _ (inl refl))) (
          on_name-Gives p _ _ _
            (with_one-Gives p _ _ (λ a. read_with-Gives p _ _ (λ t. gives _ (inl refl))))
            (on_name-Gives p _ _ _ (seconds-Gives p _ _ (λ t. inl refl)) (
              on_name-Gives p _ _ _ (seconds-Gives p _ _ (λ t. inl refl)) (
                on_name-Gives p _ _ _ (seconds-Gives p _ _ (λ t. inl refl)) (
                  on_name-Gives p _ _ _ (seconds-Gives p _ _ (λ t. inl refl)) (
                    on_name-Gives p _ _ _
                      (with_one-Gives p _ _
                        (λ a. when-Gives p _ _ _ (seconds-Gives p _ _ (λ t. inl refl))))
                      (on_name-Gives p _ _ _ (seconds-Gives p _ _ (λ t. inl refl)) (
                        on_name-Gives p _ _ _ (seconds-Gives p _ _ (λ t. inl refl)) (
                          on_name-Gives p _ _ _ (switched-Gives p _ _ (λ t. inl refl))
                            (not_here)))))))))))

  pub serving-Gives : (n : Leaf) (s : Scope) → GivesSome (Similar s) (serving r c n s)
  unfolding serving
  serving-Gives n s =
      let p = Similar s in
      on_name-Gives p _ _ _ (with_one-Gives p _ _ (λ a. when-Gives p _ _ _ (gives _ (inl refl)))) (
        on_name-Gives p _ _ _ (with_one-Gives p _ _ (λ a. when-Gives p _ _ _ (gives _ (inl refl))))
          (on_name-Gives p _ _ _
            (with_one-Gives p _ _ (λ a. when-Gives p _ _ _ (switched-Gives p _ _ (λ t. inl refl))))
            (on_name-Gives p _ _ _
              (with_one-Gives p _ _ (λ a.
                when-Gives p _ _ _ (when-Gives p _ _ _ (switched-Gives p _ _ (λ t. inl refl)))))
              (on_name-Gives p _ _ _
                (with_one-Gives p _ _ (λ a. when-Gives p _ _ _ (gives _ (inl refl))))
                (on_name-Gives p _ _ _ (access_log-Gives r n.args s) (
                  on_name-Gives p _ _ _
                    (when-Gives p _ _ _ (read_with-Gives p _ _ (λ p. gives _ (inl refl))))
                    (on_name-Gives p _ _ _ (when-Gives p _ _ _ (error_log-Gives r n.args s))
                      (not_here))))))))
