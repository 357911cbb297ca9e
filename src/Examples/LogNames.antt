-- ===== src/Examples/LogNames.antt =====
-- The log file of a step.
use pici.Base.{◌≡◌, true, all, codes}
use pici.Workspace.{is_safe, source, step_log_name, log_source}
use pici.Workspace.Names.{is_plain, step_log_name-source}

-- The step "a/b", the twelfth.
step_log_name-source_example :
    (all is_plain (step_log_name 11 (codes "a/b")) ≡ true)
    × (all is_safe (source (codes "a/b")) ≡ true)
    × (log_source (step_log_name 11 (codes "a/b")) ≡ source (codes "a/b"))
    × (source (source (codes "a/b")) ≡ source (codes "a/b"))
step_log_name-source_example = step_log_name-source 11 (codes "a/b")
