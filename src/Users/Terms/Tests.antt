-- ===== src/Users/Terms/Tests.antt =====
-- Runs of terms.service.ts, and the theorems at concrete inputs: terms in German and English, for
-- all and for one city.
use kodi_backend_template_a.Base.{
  ◌≤◌, String, ◌≡◌, ◌↔◌, refl, true, false, Option, none, some, List, [], ◌∷◌, arith, find?, refuse,
  answer,
}
use kodi_backend_template_a.Base.Store.{Table, list_table}
use kodi_backend_template_a.Rbac.Guards.{terms_acceptance_guard, forbidden, terms_not_accepted}
use kodi_backend_template_a.Users.Terms.{
  Terms, Acceptance, TermsConfig, NewTerms, TermsPatch, TermsState, create_terms, accept_terms,
  update_terms, get_latest_terms, has_user_accepted_latest_terms, find_acceptance, new_terms,
  grace_period_end, has_id, version_exists, create_unless,
}
use kodi_backend_template_a.Users.Terms.Calls.{TermsCall, create, change, accept, run}
use kodi_backend_template_a.Users.Terms.Latest.{IsValid}
use kodi_backend_template_a.Users.Terms.Valid.{run-IsValid}
use kodi_backend_template_a.Users.Terms.Shown.{IsBest, get_latest_terms-IsBest}
use kodi_backend_template_a.Users.Terms.Acceptances.{
  as_check, has_user_accepted_latest_terms-accept_terms,
  terms_acceptance_guard-has_user_accepted_latest_terms,
}

abbrev table : Table Terms
table = list_table Terms

abbrev log : Table Acceptance
log = list_table Acceptance

abbrev config : TermsConfig
config = record { default_locale = "en"; grace_period_days = 7 }

abbrev version : String → String → String → Option String → NewTerms
version id v locale city = record {
  new_id = id;
  version = v;
  title = "Terms";
  content = "...";
  locale = locale;
  city_id = city;
  is_active = none;
  is_latest = some true;
  grace_period_days = none;
  created_by = none;
}

abbrev empty : TermsState table log config
empty = record { terms = []; acceptances = [] }

abbrev as_latest : TermsPatch
as_latest = record {
  title = none;
  content = none;
  is_active = none;
  is_latest = some true;
  grace_period_days = none;
}

abbrev calls : List TermsCall
calls =
    create 100 (version "en1" "1" "en" none)
    ∷ create 100 (version "de1" "1" "de" none)
    ∷ create 200 (version "koln1" "1" "en" (some "koln"))
    ∷ create 300 (version "en2" "2" "en" none)
    ∷ create 300 (version "en2" "2" "en" none)
    ∷ change "en1" as_latest
    ∷ accept 400 "u" "en1" none none
    ∷ []

abbrev after : TermsState table log config
after = run table log config calls empty

none_stored : IsValid []
none_stored = record {
  one_latest = λ l c. omega arith;
  one_version = λ v l c. omega arith;
  one_id = λ id. omega arith;
}

run-IsValid_example : IsValid after.terms
run-IsValid_example = run-IsValid table log config calls empty none_stored

get_latest_terms-IsBest_example :
    IsBest "de" "en"
      (some "koln")
      after.terms
      (get_latest_terms table log config after (some "de") (some "koln"))
get_latest_terms-IsBest_example =
    get_latest_terms-IsBest table log config after (some "de") (some "koln")

abbrev german : NewTerms
german = version "de3" "3" "de" none

german_created :
    (create_terms table log config 500 german after).1
    ≡ answer (new_terms table log config 500 german)
unfolding create_terms create_unless accept_terms update_terms
german_created = refl

-- The English and the German text of the first version.
abbrev english_1 : Terms
english_1 = new_terms table log config 100 (version "en1" "1" "en" none)

abbrev german_1 : Terms
german_1 = new_terms table log config 100 (version "de1" "1" "de" none)

abbrev two : TermsState table log config
two = record { terms = english_1 ∷ german_1 ∷ []; acceptances = [] }

english_found : find? (has_id "en1") two.terms ≡ some english_1
unfolding has_id new_terms
english_found = refl

german_shown : get_latest_terms table log config two (some "de") none ≡ some german_1
unfolding get_latest_terms new_terms
german_shown = refl

abbrev accepted : Acceptance
accepted = record {
  user_id = "u";
  terms_id = "en1";
  version = "1";
  locale = "en";
  ip_address = none;
  user_agent = none;
  accepted_at = 400;
}

english_accepted : (accept_terms table log config 400 "u" "en1" none none two).1 ≡ answer accepted
unfolding accept_terms new_terms
english_accepted = refl

has_user_accepted_latest_terms-accept_terms_example :
    (has_user_accepted_latest_terms table log config 9000000
      (accept_terms table log config 400 "u" "en1" none none two).0
      "u"
      (some "de")
      none).has_accepted
    ≡ true
unfolding new_terms
has_user_accepted_latest_terms-accept_terms_example =
    has_user_accepted_latest_terms-accept_terms table log config 400 9000000 "u" "en1" none none
      (some "de") none english_1 german_1 two english_found english_accepted german_shown refl refl

terms_acceptance_guard-has_user_accepted_latest_terms_example :
    (terms_acceptance_guard false (some "u") 604901 (
        some (
          as_check table log config
            (has_user_accepted_latest_terms table log config 604900 two "u" (some "de") none)))
      ≡ forbidden terms_not_accepted)
    ↔ ((t : Terms) × (get_latest_terms table log config two (some "de") none ≡ some t)
        × (find_acceptance table log config two "u" t ≡ none)
        × (grace_period_end t ≤ 604901))
terms_acceptance_guard-has_user_accepted_latest_terms_example =
    terms_acceptance_guard-has_user_accepted_latest_terms table log config 604900 604901 "u"
      (some "de") none two (omega arith) refl

-- On the seventh day after its creation the version is still free to be ignored.
grace_test :
    (has_user_accepted_latest_terms table log config 604899 two "u"
      (some "de")
      none).grace_period_ends_at
    ≡ some 604900
unfolding has_user_accepted_latest_terms get_latest_terms new_terms
grace_test = refl

version_taken :
    (create_terms table log config 500 (version "x" "1" "de" none) two).1 ≡ refuse version_exists
unfolding create_terms new_terms
version_taken = refl
