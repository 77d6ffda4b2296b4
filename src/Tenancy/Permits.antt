-- ===== src/Tenancy/Permits.antt =====
-- The permits of a tenant over any history of calls, quota changes included.
use rgnix.Base.{
  ltb, leb, if◌then◌else◌, Bool-cases, length, Text, text_is_eq, lookup, IsUnique,
  lookup-retain_entries, ok, err, ℕ, ◌+◌, ◌-◌, ◌≤◌, ◌<◌, ◌≡◌, refl, ◌∙◌, ◌↔◌, inl, inr, Bool, true,
  false, ◌||◌, some, List, [], ◌∷◌, arith,
}
use rgnix.Tenancy.{
  Quota, Resource, request, plugin, auth, mirror, Active, count, set_count, limit, Tenant,
  acquire_permit, drop_permit, renew, fresh_tenant, retain_tenants,
}

abbrev same_resource : Resource → Resource → Bool
same_resource request request = true
same_resource plugin plugin = true
same_resource auth auth = true
same_resource mirror mirror = true
same_resource a b = false

-- How many permits of a resource are out.
abbrev pub out : Resource → List Resource → ℕ
out r [] = 0
out r (p ∷ ps) = (if same_resource p r then 1 else 0) + out r ps

abbrev pub give_back : Resource → List Resource → List Resource
give_back r [] = []
give_back r (p ∷ ps) = if same_resource p r then ps else p ∷ give_back r ps

count-set_count :
    (a : Active) (r s : Resource) (n : ℕ)
    → count (set_count a r n) s ≡ (if same_resource r s then n else count a s)
count-set_count a request request n = refl
count-set_count a request plugin n = refl
count-set_count a request auth n = refl
count-set_count a request mirror n = refl
count-set_count a plugin request n = refl
count-set_count a plugin plugin n = refl
count-set_count a plugin auth n = refl
count-set_count a plugin mirror n = refl
count-set_count a auth request n = refl
count-set_count a auth plugin n = refl
count-set_count a auth auth n = refl
count-set_count a auth mirror n = refl
count-set_count a mirror request n = refl
count-set_count a mirror plugin n = refl
count-set_count a mirror auth n = refl
count-set_count a mirror mirror n = refl

no_counts : (r : Resource) → count (record { request = 0; plugin = 0; auth = 0; mirror = 0 }) r ≡ 0
no_counts request = refl
no_counts plugin = refl
no_counts auth = refl
no_counts mirror = refl

same_resource_iff : (a b : Resource) → (same_resource a b ≡ true) ↔ (a ≡ b)
same_resource_iff request b = elim b [
  | request ↦ ground arith
  | plugin ↦ ground arith
  | auth ↦ ground arith
  | mirror ↦ ground arith
]
same_resource_iff plugin b = elim b [
  | request ↦ ground arith
  | plugin ↦ ground arith
  | auth ↦ ground arith
  | mirror ↦ ground arith
]
same_resource_iff auth b = elim b [
  | request ↦ ground arith
  | plugin ↦ ground arith
  | auth ↦ ground arith
  | mirror ↦ ground arith
]
same_resource_iff mirror b = elim b [
  | request ↦ ground arith
  | plugin ↦ ground arith
  | auth ↦ ground arith
  | mirror ↦ ground arith
]

out-give_back :
    (r s : Resource) (ps : List Resource)
    → out s (give_back r ps) ≡ (if same_resource r s then out s ps - 1 else out s ps)
out-give_back r s [] = ground arith
out-give_back r s (p ∷ ps) = ground (
  arith,
  out-give_back r s ps,
  same_resource_iff p r,
  same_resource_iff p s,
  same_resource_iff r s,
)

length-give_back :
    (r : Resource) (ps : List Resource) → 0 < out r ps → length (give_back r ps) + 1 ≡ length ps
length-give_back r [] h = omega arith
length-give_back r (p ∷ ps) h = ground (arith, length-give_back r ps)

module _ {Float : Type 0} (top : Resource → ℕ) where
  -- One call on a tenant, the permits that are out, and the number of other handles.
  pub data Step : Tenant Float → List Resource → ℕ → Tenant Float → List Resource → ℕ → Type 0 where
    grant :
        (t : Tenant Float) (ps : List Resource) (n : ℕ) (r : Resource)
        → (acquire_permit t r).1 ≡ ok r
        → Step t ps n (acquire_permit t r).0 (r ∷ ps) n
    refuse :
        (t : Tenant Float) (ps : List Resource) (n : ℕ) (r : Resource)
        → (acquire_permit t r).1 ≡ err 503
        → Step t ps n (acquire_permit t r).0 ps n
    give :
        (t : Tenant Float) (ps : List Resource) (n : ℕ) (r : Resource)
        → 0 < out r ps
        → Step t ps n (drop_permit t r) (give_back r ps) n
    again :
        (t : Tenant Float) (ps : List Resource) (n : ℕ) (q : Quota)
        → ((r : Resource) → limit q r ≤ top r)
        → Step t ps n (renew q t) ps (n + 1)
    leave :
        (t : Tenant Float) (ps : List Resource) (n : ℕ)
        → Step t ps (n + 1) (record t { held = t.held - 1 }) ps n

  -- A tenant as `Tenants::tenant` makes it, and what calls on it lead to.
  pub data Reach : Tenant Float → List Resource → ℕ → Type 0 where
    start :
        (name : Text) (q : Quota)
        → ((r : Resource) → limit q r ≤ top r)
        → Reach (renew q (fresh_tenant name q)) [] 1
    next :
        {t t' : Tenant Float} {ps ps' : List Resource} {n n' : ℕ}
        → Reach t ps n
        → Step t ps n t' ps' n'
        → Reach t' ps' n'

  pub record Counted (t : Tenant Float) (ps : List Resource) (n : ℕ) : Type 0 where
    pub counts : (r : Resource) → count t.active r ≡ out r ps
    pub within_top : (r : Resource) → count t.active r ≤ top r
    pub quota_top : (r : Resource) → limit t.quota r ≤ top r
    pub handles : t.held ≡ length ps + n

  granted-room :
      (t : Tenant Float) (r : Resource)
      → (acquire_permit t r).1 ≡ ok r
      → leb (limit t.quota r) (count t.active r) ≡ false
  unfolding acquire_permit
  granted-room t r h = elim (Bool-cases (leb (limit t.quota r) (count t.active r))) [
    | inl full ↦ absurd (ground arith)
    | inr room ↦ room
  ]

  refused-same :
      (t : Tenant Float) (r : Resource)
      → (acquire_permit t r).1 ≡ err 503
      → (acquire_permit t r).0 ≡ t
  unfolding acquire_permit
  refused-same t r h = ground arith

  grant-Counted :
      (t : Tenant Float) (ps : List Resource) (n : ℕ) (r : Resource)
      → leb (limit t.quota r) (count t.active r) ≡ false
      → Counted t ps n
      → Counted (acquire_permit t r).0 (r ∷ ps) n
  unfolding acquire_permit
  grant-Counted t ps n r room c = rw room (record {
    counts = λ s. ground (
      arith,
      count-set_count t.active r s (count t.active r + 1),
      c.counts s,
      c.counts r,
      same_resource_iff r s,
    );
    within_top = λ s. ground (
      arith,
      count-set_count t.active r s (count t.active r + 1),
      c.within_top s,
      c.quota_top r,
      same_resource_iff r s,
    );
    quota_top = c.quota_top;
    handles = let h = c.handles in omega arith;
  })

  give-Counted :
      (t : Tenant Float) (ps : List Resource) (n : ℕ) (r : Resource)
      → 0 < out r ps
      → Counted t ps n
      → Counted (drop_permit t r) (give_back r ps) n
  unfolding drop_permit
  give-Counted t ps n r some_out c = record {
    counts = λ s. ground (
      arith,
      count-set_count t.active r s (count t.active r - 1),
      c.counts s,
      c.counts r,
      out-give_back r s ps,
      same_resource_iff r s,
    );
    within_top = λ s. ground (
      arith,
      count-set_count t.active r s (count t.active r - 1),
      c.within_top s,
      same_resource_iff r s,
    );
    quota_top = c.quota_top;
    handles = let h = c.handles in omega (arith, length-give_back r ps some_out);
  }

  step-Counted :
      {t t' : Tenant Float} {ps ps' : List Resource} {n n' : ℕ}
      → Step t ps n t' ps' n'
      → Counted t ps n
      → Counted t' ps' n'
  unfolding renew
  step-Counted (grant t ps n r h) c = grant-Counted t ps n r (granted-room t r h) c
  step-Counted (refuse t ps n r h) c = rw (refused-same t r h) c
  step-Counted (give t ps n r h) c = give-Counted t ps n r h c
  step-Counted (again t ps n q h) c = record {
    counts = c.counts;
    within_top = c.within_top;
    quota_top = h;
    handles = let e = c.handles in omega arith;
  }
  step-Counted (leave t ps n) c = record {
    counts = c.counts;
    within_top = c.within_top;
    quota_top = c.quota_top;
    handles = let e = c.handles in omega arith;
  }

  -- After any history of a tenant's calls, each count is the number of that resource's permits that
  -- are out, it is at most the highest limit that a quota of the history gave the resource, and
  -- the handles outside the map are the permits and the other handles.
  pub tenant-Counted :
      {t : Tenant Float} {ps : List Resource} {n : ℕ} → Reach t ps n → Counted t ps n
  unfolding renew fresh_tenant
  tenant-Counted (start name q h) = record {
    counts = no_counts;
    within_top = λ r. omega (arith, no_counts r);
    quota_top = h;
    handles = refl;
  }
  tenant-Counted (next before step) = step-Counted step (tenant-Counted before)

  -- A tenant that has a permit out is not forgotten by `retain`, whatever the names are.
  pub retain_tenants-lookup :
      (names : Text → Bool) (states : List (Text × Tenant Float)) (name : Text) {t : Tenant Float}
      {ps : List Resource} {n : ℕ}
      → IsUnique states
      → lookup name states ≡ some t
      → Reach t ps n
      → 0 < length ps
      → lookup name (retain_tenants names states) ≡ some t
  unfolding retain_tenants
  retain_tenants-lookup names states name {t = t} u at history busy =
      let held = (tenant-Counted history).handles in
      let stays : (names name || ltb 0 t.held) ≡ true = ground arith in
      lookup-retain_entries _ name states u ∙ rw (at, stays) refl
