-- ===== src/Syntax/Parse/Print.antt =====
-- The tokens of directives, and the directives that the parser reads from them.
use rgnix.Base.{
  length, Text, ok, ℕ, zero, suc, ◌+◌, ◌*◌, ◌≤◌, max, ◌≡◌, refl, true, Option, none, some, List, [],
  ◌∷◌, arith,
}
use rgnix.Syntax.{Token, word_token}
use rgnix.Syntax.Parse.{simple, block, Directives, nothing, also, parse, nodes, arguments}

abbrev pub mark : ℕ → Token
mark c = record { text = c ∷ []; punctuation = true; line = 1; column = 1 }

-- The tokens of arguments, before those that follow.
unfoldable put_args : ℕ × ℕ → List Text → List Token → List Token
put_args at [] tail = tail
put_args at (a ∷ args) tail = word_token a at.0 at.1 ∷ put_args at args tail

-- The tokens of directives, before those that follow: each name and argument stands at the
-- directive's source.
unfoldable pub put : Directives → List Token → List Token
unfolding put_args
put nothing tail = tail
put (also (simple name args at) ds) tail =
    word_token name at.0 at.1 ∷ put_args at args (mark b';' ∷ put ds tail)
put (also (block name args at children) ds) tail =
    word_token name at.0 at.1
    ∷ put_args at args (mark b'{' ∷ put children (mark b'}' ∷ put ds tail))

-- How deep blocks stand in each other.
unfoldable pub height : Directives → ℕ
height nothing = 0
height (also (simple name args at) ds) = height ds
height (also (block name args at children) ds) = max (suc (height children)) (height ds)

put_args-length :
    (at : ℕ × ℕ) (args : List Text) (tail : List Token)
    → length (put_args at args tail) ≡ length args + length tail
unfolding put_args
put_args-length at [] tail = omega arith
put_args-length at (a ∷ args) tail = omega (arith, put_args-length at args tail)

put-length : (ds : Directives) (tail : List Token) → length tail ≤ length (put ds tail)
unfolding put
put-length nothing tail = omega arith
put-length (also (simple name args at) ds) tail =
    omega (arith, put_args-length at args (mark b';' ∷ put ds tail), put-length ds tail)
put-length (also (block name args at children) ds) tail = omega (
  arith,
  put_args-length at args (mark b'{' ∷ put children (mark b'}' ∷ put ds tail)),
  put-length children (mark b'}' ∷ put ds tail),
  put-length ds tail,
)

-- The inner loop passes over the arguments.
arguments-put_args :
    (n depth : ℕ) (name : Token) (at : ℕ × ℕ) (args : List Text) (tail left : List Token)
    (children : Option Directives)
    → ((m : ℕ) → 2 * length tail + 1 ≤ m → arguments m depth name tail ≡ ok (([], children), left))
    → 2 * length (put_args at args tail) + 1 ≤ n
    → arguments n depth name (put_args at args tail) ≡ ok ((args, children), left)
unfolding arguments put_args
arguments-put_args n depth name at [] tail left children h fuel = h n fuel
arguments-put_args zero depth name at (a ∷ args) tail left children h fuel = absurd (omega arith)
arguments-put_args (suc n) depth name at (a ∷ args) tail left children h fuel =
    ground (arith, arguments-put_args n depth name at args tail left children h (omega arith))

-- What ends a block at a depth: the tail is read as no directive.
abbrev Ends : ℕ → List Token → List Token → Type 0
Ends depth tail left = (m : ℕ) → 2 * length tail + 1 ≤ m → nodes m depth tail ≡ ok (nothing, left)

brace-Ends : (depth : ℕ) (left : List Token) → Ends (depth + 1) (mark b'}' ∷ left) left
unfolding nodes
brace-Ends depth left zero fuel = absurd (omega arith)
brace-Ends depth left (suc m) fuel = ground arith

end-Ends : Ends 0 [] []
unfolding nodes
end-Ends zero fuel = absurd (omega arith)
end-Ends (suc m) fuel = refl

semicolon-ends :
    (depth : ℕ) (name : Token) (left : List Token) (m : ℕ)
    → 2 * length (mark b';' ∷ left) + 1 ≤ m
    → arguments m depth name (mark b';' ∷ left) ≡ ok (([], none), left)
unfolding arguments
semicolon-ends depth name left zero fuel = absurd (omega arith)
semicolon-ends depth name left (suc m) fuel = refl

brace-ends :
    (depth : ℕ) (name : Token) (children : Directives) (rest left : List Token)
    → depth + 1 ≤ 32
    → ((m : ℕ) → 2 * length rest + 1 ≤ m → nodes m (depth + 1) rest ≡ ok (children, left))
    → (m : ℕ) → 2 * length (mark b'{' ∷ rest) + 1 ≤ m
    → arguments m depth name (mark b'{' ∷ rest) ≡ ok (([], some children), left)
unfolding arguments parse
brace-ends depth name children rest left low inner zero fuel = absurd (omega arith)
brace-ends depth name children rest left low inner (suc zero) fuel = absurd (omega arith)
brace-ends depth name children rest left low inner (suc (suc m)) fuel =
    ground (arith, inner m (omega arith))

nodes-put :
    (n depth : ℕ) (ds : Directives) (tail left : List Token)
    → Ends depth tail left
    → depth + height ds ≤ 32
    → 2 * length (put ds tail) + 1 ≤ n
    → nodes n depth (put ds tail) ≡ ok (ds, left)
unfolding nodes put height
nodes-put n depth nothing tail left ends low fuel = ends n fuel
nodes-put zero depth (also d ds) tail left ends low fuel = absurd (omega arith)
nodes-put (suc n) depth (also (simple name args at) ds) tail left ends low fuel =
    let after = mark b';' ∷ put ds tail in
    let inner : arguments n depth (word_token name at.0 at.1) (put_args at args after)
        ≡ ok ((args, none), put ds tail) =
      arguments-put_args n depth (word_token name at.0 at.1) at args after (put ds tail) none
        (semicolon-ends depth (word_token name at.0 at.1) (put ds tail)) (omega arith) in
    let outer : nodes n depth (put ds tail) ≡ ok (ds, left) =
      nodes-put n depth ds tail left ends low
        (omega (arith, put_args-length at args (mark b';' ∷ put ds tail))) in
    rw (inner, outer, nodes) refl
nodes-put (suc n) depth (also (block name args at children) ds) tail left ends low fuel =
    let after = mark b'{' ∷ put children (mark b'}' ∷ put ds tail) in
    let inner : arguments n depth (word_token name at.0 at.1) (put_args at args after)
        ≡ ok ((args, some children), put ds tail) =
      arguments-put_args n depth (word_token name at.0 at.1) at args after (put ds tail)
        (some children)
        (brace-ends depth (word_token name at.0 at.1) children
          (put children (mark b'}' ∷ put ds tail)) (put ds tail) (omega arith)
          (λ m enough.
            nodes-put m (depth + 1) children (mark b'}' ∷ put ds tail) (put ds tail)
              (brace-Ends depth (put ds tail)) (omega arith) enough))
        (omega arith) in
    let outer : nodes n depth (put ds tail) ≡ ok (ds, left) =
      nodes-put n depth ds tail left ends (omega arith) (
        omega
          (arith, put_args-length at args after, put-length children (mark b'}' ∷ put ds tail))) in
    rw (inner, outer, nodes) refl

-- Directives whose blocks stand at most 32 deep are read back from their tokens, with the fuel
-- that the number of the tokens asks for.
pub parse-put :
    (ds : Directives)
    → height ds ≤ 32
    → parse (2 * length (put ds []) + 2) 0 (put ds []) ≡ ok (ds, [])
unfolding parse
parse-put ds low =
    let n = 2 * length (put ds []) + 1 in
    let inner : nodes n 0 (put ds []) ≡ ok (ds, []) =
      nodes-put n 0 ds [] [] end-Ends (omega arith) (omega arith) in
    let more : 2 * length (put ds []) + 2 ≡ suc n = omega arith in rw more (rw (inner, parse) refl)
