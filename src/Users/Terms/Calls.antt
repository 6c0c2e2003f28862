-- ===== src/Users/Terms/Calls.antt =====
-- Sequences of calls that change the state of terms.service.ts.
use kodi_backend_template_a.Base.{ℕ, String, Option, List, [], ◌∷◌}
use kodi_backend_template_a.Base.Store.{Table}
use kodi_backend_template_a.Users.Terms.{
  Terms, Acceptance, TermsConfig, NewTerms, TermsPatch, TermsState, create_terms, update_terms,
  accept_terms,
}

-- A call; a creation and an acceptance come with their time.
pub data TermsCall : Type 0 where
  create : ℕ → NewTerms → TermsCall
  change : String → TermsPatch → TermsCall
  accept : ℕ → String → String → Option String → Option String → TermsCall

module _ (table : Table Terms) (log : Table Acceptance) (config : TermsConfig) where
  abbrev pub step : TermsCall → TermsState table log config → TermsState table log config
  step (create now dto) s = (create_terms table log config now dto s).0
  step (change id dto) s = (update_terms table log config id dto s).0
  step (accept now user id ip agent) s = (accept_terms table log config now user id ip agent s).0

  abbrev pub run : List TermsCall → TermsState table log config → TermsState table log config
  run [] s = s
  run (c ∷ cs) s = run cs (step c s)
