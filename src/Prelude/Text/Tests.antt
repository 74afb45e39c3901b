-- ===== src/Prelude/Text/Tests.antt =====
-- Concrete texts.
use mathlib.Core.Path.{◌≡◌, refl}
use ai_agent_cloud_runtime.Prelude.Text.{codes, trim_space, decimal}

spaces_trimmed : trim_space (codes "  ab c \n") ≡ codes "ab c"
unfolding trim_space
spaces_trimmed = refl

number_written : decimal 305 ≡ codes "305"
unfolding decimal
number_written = refl
