-- ===== src/Config/Ini/SaveParse.antt =====
-- `SaveConfigFile` and `parseFile` of core/config/ini.go are inverse to each other on containers with no
-- comments.
use thinkgo.Base.{Bytes, List, [], ◌∷◌}
use thinkgo.Config.Ini.Lines.{IsLine}

abbrev pub AllLines : List Bytes → Type 0
AllLines [] = Unit
AllLines (l ∷ ls) = IsLine l × AllLines ls
