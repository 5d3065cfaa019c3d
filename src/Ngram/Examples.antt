-- ===== src/Ngram/Examples.antt =====
-- The corpus 5 6 7 9 5 6 7 8 5 6 with 7 behind it: the three last tokens occurred twice before.
use meitte.Base.{ℕ, List, [], ◌∷◌, ◌≡◌, refl, pos, arith}
use meitte.Ngram.{token_at, ngram_draft, draft_within, match_len, extend, scan, tokens_from}
use meitte.Ngram.Draft.{Drafted, ngram_draft-Drafted}

abbrev corpus : List ℕ
corpus = 5 ∷ 6 ∷ 7 ∷ 9 ∷ 5 ∷ 6 ∷ 7 ∷ 8 ∷ 5 ∷ 6 ∷ []

-- The more recent of the two is followed.
recent_match : ngram_draft corpus 7 (pos 2) (pos 3) (pos 12) ≡ 8 ∷ 5 ∷ []
unfolding ngram_draft draft_within match_len extend scan tokens_from token_at
recent_match = refl

ngram_draft-Drafted_example :
    Drafted (token_at corpus 7) 10 2 3 12 (ngram_draft corpus 7 (pos 2) (pos 3) (pos 12))
ngram_draft-Drafted_example =
    ngram_draft-Drafted corpus 7 2 3 12 (omega arith) (omega arith) (omega arith)
