-- ===== src/App/Filter/Glob.antt =====
-- globMatch decides what a pattern matches.
use rail.App.Filter.Follows.{Follows}
