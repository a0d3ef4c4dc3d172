-- ===== src/Memory/Alloc.antt =====
-- alloc is a sequence of critical sections, with those of other threads between them.
use rail.Prelude.{Option, none, some, List, ◌∷◌}
use rail.Memory.{Memory, Run, State}
use rail.Memory.Steps.{Steps, here, more}

pub Steps-trans : {s t u : State} → Steps s t → Steps t u → Steps s u
Steps-trans first here = first
Steps-trans first (more rest step) = more (Steps-trans first rest) step

abbrev pub with_run : Option Run → List Run → List Run
with_run none out = out
with_run (some run) out = run ∷ out

-- The state after a call of alloc, where a run that it returns is out.
abbrev pub after : State × Option Run → State
after (s, run) = record s { out = with_run run s.out }
