-- ===== src/Origin/Read/Returns/Tests.antt =====
-- The origin before the first block of a cluster, with a child at the same place.
use p2p_live_streming_system.Program.{Program}
use p2p_live_streming_system.Program.Tests.{first}
use p2p_live_streming_system.Program.Returns.Tests.{serving}
use p2p_live_streming_system.Origin.Read.{set_current_block}

abbrev reader : Program
reader = set_current_block serving first
