-- ===== src/Memory/Samples.antt =====
-- Tests of the reference store (backend/service/repository/conformance/implementation.go), and its
-- theorems at concrete inputs.
use software_engineering_pla.Shared.{
  ◌≡◌, refl, true, false, ◌&&◌, List, [], ◌∷◌, ℕ, none, some, leb, arith,
}
use software_engineering_pla.Shared.Int.{pos}
use software_engineering_pla.Die.Text.{Text, text}
use software_engineering_pla.Repo.Valid.{Unicode, valid_uuid, valid_safe_text, valid_name}
use software_engineering_pla.Repo.Contract.{new_repository}
use software_engineering_pla.Repo.Errors.{gives}
use software_engineering_pla.Repo.Values.{
  Time, Scope, Repository, active, RegisterRepositoryRequest,
}
use software_engineering_pla.Memory.{repository_key, MemoryStore, check_context}
use software_engineering_pla.Memory.Store.{registration_fingerprint, register_stored}
use software_engineering_pla.Memory.Paging.{page_of}
use software_engineering_pla.Memory.Paging.Resumes.{all_pages, all_pages_complete}
use software_engineering_pla.Memory.Refines.{registers, view, run_command}
use software_engineering_pla.Memory.Refines.Isolation.{AgreeIn, run_command-AgreeIn}
use software_engineering_pla.Memory.Refines.Order.{Commutes, register_stored-commute}
use software_engineering_pla.Memory.Refines.Retry.{register_stored-again}

abbrev ascii : Unicode
ascii = record {
  runes = λ v. some v;
  is_trimmed = λ v. true;
  is_letter = λ c. leb b'a' c && leb c b'z';
  is_digit = λ c. leb b'0' c && leb c b'9';
  is_lower = λ c. leb b'a' c && leb c b'z';
  is_control = λ c. false;
}

abbrev hash : Text → Text
hash v = 7 ∷ []

abbrev noon : Time
noon = record { instant = pos 43200; is_utc = true }

abbrev scope : Scope
scope = record { scope_id = text "scope-a"; principal_id = text "p" }

abbrev uuid : Text
uuid = text "11111111-1111-4111-8111-111111111111"

abbrev request : RegisterRepositoryRequest
request = record {
  scope = scope;
  request_id = text "r1";
  repository_id = uuid;
  display_name = text "Seeded";
  source = text "handle";
}

abbrev empty : MemoryStore
empty = record {
  repositories = [];
  scans = [];
  artifacts = [];
  payloads = [];
  requests = [];
  is_closed = false;
}

abbrev seeded : Repository
seeded = record {
  repository_id = uuid;
  display_name = text "Seeded";
  source_kind = text "local";
  fingerprint_scheme = text "sha256/v1";
  fingerprint = 7 ∷ [];
  state = active;
  current_scan_id = [];
  created_at = noon;
  updated_at = noon;
}

registers_seeded : (register_stored ascii hash noon (some none) request empty).0 ≡ gives seeded
unfolding register_stored check_context new_repository valid_uuid valid_safe_text valid_name
registers_seeded = refl

-- a bar in a name and one in a handle give two registrations one fingerprint
one_fingerprint :
    registration_fingerprint (record request { display_name = text "a|b"; source = text "c" })
    ≡ registration_fingerprint (record request { display_name = text "a"; source = text "b|c" })
one_fingerprint = refl

abbrev three : List ℕ
three = 1 ∷ 2 ∷ 3 ∷ []

first_page_has_a_cursor : page_of three 2 [] ≡ (1 ∷ 2 ∷ [], text "2")
unfolding page_of
first_page_has_a_cursor = refl

run_command-AgreeIn_example :
    AgreeIn
      (text "scope-b")
      (view (run_command ascii hash hash noon (registers (some none) request) empty).1)
      (view empty)
run_command-AgreeIn_example =
    run_command-AgreeIn ascii hash hash noon (registers (some none) request) empty (text "scope-b")
      refl refl refl

abbrev one : Time
one = record noon { instant = pos 46800 }

register_stored-again_example :
    register_stored ascii hash one
      (some none)
      request
      (register_stored ascii hash noon (some none) request empty).1
    ≡ (gives seeded, (register_stored ascii hash noon (some none) request empty).1)
register_stored-again_example =
    register_stored-again ascii hash noon one request empty seeded registers_seeded

all_pages_complete_example : all_pages 4 three 2 [] ≡ three
all_pages_complete_example = all_pages_complete three 2 (omega arith) (omega arith)

abbrev second : RegisterRepositoryRequest
second = record request {
  request_id = text "r2";
  repository_id = text "11111111-1111-4111-8111-111111111112";
}

register_stored-commute_example : Commutes ascii hash noon request second empty
unfolding repository_key
register_stored-commute_example =
    register_stored-commute ascii hash noon request second empty refl refl
