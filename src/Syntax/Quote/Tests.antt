-- ===== src/Syntax/Quote/Tests.antt =====
-- Examples of quoted words.
use rgnix.Base.{codes, ◌≡◌, some, [], ◌∷◌}
use rgnix.Syntax.{backslash, double_quote, tokenize}
use rgnix.Syntax.Quote.{quoted, texts_of, tokenize-quoted}

tokenize-quoted_example :
    texts_of (tokenize (quoted ((10 ∷ double_quote ∷ backslash ∷ []) ∷ [] ∷ codes "a;" ∷ [])))
    ≡ some ((10 ∷ double_quote ∷ backslash ∷ []) ∷ [] ∷ codes "a;" ∷ [])
tokenize-quoted_example =
    tokenize-quoted ((10 ∷ double_quote ∷ backslash ∷ []) ∷ [] ∷ codes "a;" ∷ [])
