-- ===== src/Lifecycle/Samples.antt =====
-- Runs of the lifecycle (backend/service/repository/lifecycle), and the theorems at them.
use software_engineering_pla.Shared.{
  ◌≡◌, refl, true, false, ◌&&◌, ◌||◌, [], ◌∷◌, none, some, leb, ltb, ◌==◌,
}
use software_engineering_pla.Shared.Int.{pos}
use software_engineering_pla.Die.Text.{Text, text}
use software_engineering_pla.Repo.Errors.{gives}
use software_engineering_pla.Repo.Valid.{Unicode, valid_uuid, valid_name, valid_safe_text}
use software_engineering_pla.Repo.Values.{Time, Scope, Repository, RegisterRepositoryRequest}
use software_engineering_pla.Repo.Contract.{new_repository}
use software_engineering_pla.Scan.Errors.{live_context, context_failure}
use software_engineering_pla.Lifecycle.{
  SourceProof, resolution, register_proof, register_repository, new_entry,
}
use software_engineering_pla.Lifecycle.Ends.{in_sequence, register_repository-sequence}

abbrev ascii : Unicode
ascii = record {
  runes = λ v. some v;
  is_trimmed = λ v. true;
  is_letter = λ c. (leb b'a' c && leb c b'z') || (leb b'A' c && leb c b'Z');
  is_digit = λ c. leb b'0' c && leb c b'9';
  is_lower = λ c. leb b'a' c && leb c b'z';
  is_control = λ c. ltb c 32 || c == 127;
}

abbrev hash : Text → Text
hash v = 1 ∷ []

abbrev scope : Scope
scope = record { scope_id = text "33333333-3333-4333-8333-333333333333"; principal_id = text "ci" }

abbrev repository_uuid : Text
repository_uuid = text "11111111-1111-4111-8111-111111111111"

abbrev request : RegisterRepositoryRequest
request = record {
  scope = scope;
  request_id = text "r1";
  repository_id = repository_uuid;
  display_name = text "Platform";
  source = text "src";
}

abbrev proof : SourceProof
proof = record {
  kind = text "git";
  scheme = text "tree/v1";
  revision = text "main";
  digest = 4 ∷ [];
}

abbrev clock : Time
clock = record { instant = pos 10; is_utc = false }

abbrev entry : Repository
entry = new_entry ascii hash hash request proof clock

-- a store that keeps what it is given
registered :
    (register_repository ascii hash hash
      (some live_context)
      request
      (λ _ _. resolution proof none)
      live_context
      clock
      (λ command. gives command.value)).outcome
    ≡ gives entry
unfolding register_repository register_proof context_failure new_repository valid_uuid valid_name
    valid_safe_text
registered = refl

register_repository-sequence_example :
    (let r =
        register_repository ascii hash hash
          (some live_context)
          request
          (λ _ _. resolution proof none)
          live_context
          clock
          (λ command. gives command.value) in
      in_sequence request r.log r.outcome)
    ≡ true
register_repository-sequence_example =
    register_repository-sequence ascii hash hash (some live_context) request
      (λ _ _. resolution proof none) live_context clock (λ command. gives command.value)
