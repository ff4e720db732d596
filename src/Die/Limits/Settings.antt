-- ===== src/Die/Limits/Settings.antt =====
-- The constructors of the settings (backend/die/config.go and analysis_config.go).
use software_engineering_pla.Shared.{◌≤◌, ◌<◌, ◌≡◌, arith}
use software_engineering_pla.Die.Model.{Config, new_config, ok}
use software_engineering_pla.Die.Limits.{AnalysisConfig, bounded, new_analysis_config}

-- A configuration that is accepted has no limit of zero and none above its maximum, and constructing
-- it again from its own values changes nothing.
pub new_config_bounds :
    (p c : Config)
    → new_config p ≡ ok c
    → (0 < c.max_nodes)
      × (c.max_nodes ≤ 10000000)
      × (0 < c.max_edges)
      × (c.max_edges ≤ 20000000)
      × (0 < c.max_evidence_per_item)
      × (c.max_evidence_per_item ≤ 1024)
      × (0 < c.max_diagnostics)
      × (c.max_diagnostics ≤ 1000000)
      × (new_config c ≡ ok c)
unfolding new_config
new_config_bounds p c e = ground arith

-- Analysis settings that are accepted have no traversal limit or page size of zero, do not let a traversal visit more nodes or
-- scan more edges than an inventory may have, and are what constructing them again gives.
pub new_analysis_config_bounds :
    (p c : AnalysisConfig)
    → new_analysis_config p ≡ ok c
    → (0 < c.max_traversal_nodes)
      × (c.max_traversal_nodes ≤ c.max_input_nodes)
      × (0 < c.max_traversal_edges)
      × (c.max_traversal_edges ≤ c.max_input_edges)
      × (0 < c.max_traversal_depth)
      × (c.max_traversal_depth ≤ 4096)
      × (0 < c.max_page_size)
      × (c.max_page_size ≤ 1000)
      × (c.max_cycles ≤ c.max_components)
      × (c.max_components ≤ c.max_input_nodes)
      × (new_analysis_config c ≡ ok c)
unfolding new_analysis_config bounded
new_analysis_config_bounds p c e = ground arith
