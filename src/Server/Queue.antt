-- ===== src/Server/Queue.antt =====
-- playgate-server/internal/queue/queue.go: the positions given out in each room. A map without a
-- key reads 0.
use playgate.Common.{String, if◌then◌else◌, str_eq}
use playgate.Common.Int.{ℤ, pos, add64}

abbrev pub Counters : Type 0
Counters = String → ℤ

unfoldable pub new : Counters
new room = pos 0

-- `Current`.
unfoldable pub current : Counters → String → ℤ
current m room = m room

-- `m.counters[roomID]++`.
unfoldable pub increment : Counters → String → Counters
increment m room r = if str_eq r room then add64 (m r) (pos 1) else m r

-- `Next`.
unfoldable pub next : Counters → String → Counters × ℤ
unfolding increment
next m room = (increment m room, increment m room room)
