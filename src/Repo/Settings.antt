-- ===== src/Repo/Settings.antt =====
-- The limits of the repository service (backend/service/repository/config.go; `New` of implementation.go).
--
-- Go's int and durations are ℤ, in nanoseconds; its uint64 is ℕ.
use software_engineering_pla.Shared.{
  ℕ, ◌≡◌, refl, Bool, not, ◌&&◌, ◌||◌, List, [], ◌∷◌, Option, none, some, ltb, ◌==◌, if◌then◌else◌,
}
use software_engineering_pla.Shared.Int.{ℤ, pos, ltb_ℤ}

pub record Settings : Type 0 where
  pub finalization_timeout : ℤ
  pub max_artifacts_per_scan : ℤ
  pub max_artifact_bytes : ℕ
  pub materializer_memory_bytes : ℕ
  pub max_diagnostics : ℤ
  pub max_concurrent_scans : ℤ
  pub max_page_size : ℤ
  pub max_display_name_bytes : ℤ
  pub max_source_handle_bytes : ℤ

abbrev pub default_settings : Settings
default_settings = record {
  finalization_timeout = pos 5000000000;
  max_artifacts_per_scan = pos 64;
  max_artifact_bytes = 4294967296;
  materializer_memory_bytes = 67108864;
  max_diagnostics = pos 10000;
  max_concurrent_scans = pos 64;
  max_page_size = pos 1000;
  max_display_name_bytes = pos 256;
  max_source_handle_bytes = pos 1024;
}

-- a zero takes the default
abbrev int_or : ℤ → ℕ → ℤ
int_or v default = if ltb_ℤ v (pos 0) || ltb_ℤ (pos 0) v then v else pos default

abbrev size_or : ℕ → ℕ → ℕ
size_or v default = if v == 0 then default else v

unfoldable pub complete_settings : Settings → Settings
complete_settings s = record {
  finalization_timeout = int_or s.finalization_timeout 5000000000;
  max_artifacts_per_scan = int_or s.max_artifacts_per_scan 64;
  max_artifact_bytes = size_or s.max_artifact_bytes 4294967296;
  materializer_memory_bytes = size_or s.materializer_memory_bytes 67108864;
  max_diagnostics = int_or s.max_diagnostics 10000;
  max_concurrent_scans = int_or s.max_concurrent_scans 64;
  max_page_size = int_or s.max_page_size 1000;
  max_display_name_bytes = int_or s.max_display_name_bytes 256;
  max_source_handle_bytes = int_or s.max_source_handle_bytes 1024;
}

abbrev int_in : ℕ → ℕ → ℤ → Bool
int_in low high v = not (ltb_ℤ v (pos low) || ltb_ℤ (pos high) v)

abbrev size_in : ℕ → ℕ → ℕ → Bool
size_in low high v = not (ltb v low || ltb high v)

unfoldable pub valid_settings : Settings → Bool
valid_settings s =
    int_in 1000000000 60000000000 s.finalization_timeout
    && (int_in 1 64 s.max_artifacts_per_scan
        && (size_in 1 4294967296 s.max_artifact_bytes
            && (size_in 1048576 67108864 s.materializer_memory_bytes
                && (int_in 1 10000 s.max_diagnostics
                    && (int_in 1 64 s.max_concurrent_scans
                        && (int_in 1 1000 s.max_page_size
                            && (int_in 1 256 s.max_display_name_bytes
                                && int_in 1 1024 s.max_source_handle_bytes)))))))

-- `New`, of no or one configuration: the settings of the contract, unless they are refused
unfoldable pub new_settings : List Settings → Option Settings
unfolding complete_settings valid_settings
new_settings [] = if valid_settings default_settings then some default_settings else none
new_settings (s ∷ []) =
    if valid_settings (complete_settings s) then some (complete_settings s) else none
new_settings (_ ∷ _ ∷ _) = none

default_settings_accepted : new_settings [] ≡ some default_settings
unfolding new_settings
default_settings_accepted = refl
