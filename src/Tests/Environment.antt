-- ===== src/Tests/Environment.antt =====
-- Substitution and overrides.
use codery.Base.{
  ◌<◌, ◌≡◌, refl, inl, false, false≢true, none, some, List, [], ◌∷◌, arith, Text, codes, ◌==◌,
  ==_iff, starts_with, contains_char, cut, Assoc, lookup, Result, ok,
}
use codery.ServiceDef.Env.{substitute_first, substitute_loop, resolved_env}
use codery.ServiceDef.Env.Overrides.{lines_of, setting, Free, WellKeyed, resolved_env_lem}
use codery.ServiceDef.Env.Substitution.{
  count_dollar, PlainValues, Final, substitute_total, substitute_diverges,
}
use codery.Tests.Mock.{paseo}

abbrev home : Assoc Text
home = (codes "HOME", codes "/root") ∷ []

home_plain : PlainValues home
unfolding count_dollar
home_plain = (refl, tt)

one_dollar : count_dollar (codes "${HOME}/x") < 3
unfolding count_dollar
one_dollar = omega arith

substitute_total_example :
    (r : Result Text) × (substitute_loop 3 home (codes "${HOME}/x") ≡ some r) × Final r
substitute_total_example = substitute_total 3 home (codes "${HOME}/x") home_plain one_dollar

-- What the loop gives there.
home_substituted : substitute_loop 3 home (codes "${HOME}/x") ≡ some (ok (codes "/root/x"))
unfolding substitute_loop substitute_first cut starts_with lookup ◌==◌
home_substituted = refl

abbrev looping : Assoc Text
looping = (codes "PATH", codes "${PATH}") ∷ []

no_brace : contains_char b'}' (codes "PATH") ≡ false
no_brace = refl

looping_value : lookup (codes "PATH") looping ≡ some (codes "${PATH}")
unfolding lookup ◌==◌
looping_value = refl

substitute_diverges_example : substitute_loop 1000 looping (codes "${PATH}") ≡ none
substitute_diverges_example = substitute_diverges 1000 looping (codes "PATH") no_brace looping_value

abbrev raw_lines : List Text
raw_lines = codes "MODE=dev" ∷ codes "MODEL=x" ∷ []

abbrev modes : Assoc Text
modes = (codes "MODE", codes "prod") ∷ []

modes-WellKeyed : WellKeyed modes
modes-WellKeyed = (refl, tt, tt)

no_equals : contains_char b'=' (codes "MODEL") ≡ false
no_equals = refl

model-Free : Free (codes "MODEL") modes
unfolding ◌==◌
model-Free = (λ e. false≢true ((==_iff (codes "MODEL") (codes "MODE")).1 e), tt)

resolved_env_lem_example :
    (lines_of (codes "MODE") (resolved_env paseo raw_lines)
      ≡ setting (codes "MODE") (codes "prod") ∷ [])
    × (lines_of (codes "MODEL") (resolved_env paseo raw_lines) ≡ lines_of (codes "MODEL") raw_lines)
resolved_env_lem_example =
    resolved_env_lem paseo modes raw_lines (codes "MODE") (codes "prod") (codes "MODEL") refl
      modes-WellKeyed (inl refl) no_equals model-Free
