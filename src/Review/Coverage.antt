-- ===== src/Review/Coverage.antt =====
-- A pass needs complete observation of both sides of every scenario.
use glassroot.Policy.Evaluate.{Limits as PolicyLimits}
use glassroot.Compare.Validate.{Limits}
