-- ===== src/Authorization/Tests.antt =====
-- A poll across the wrap of the clock.
use devices.Prelude.{◌+◌, ◌≡◌, arith, leb}
use devices.Prelude.Words.{u32}
use devices.Authorization.Policy.{elapsed, poll_delay}
use devices.Authorization.Pace.{poll_is_due}

poll_is_due_example :
    (elapsed (u32 (4294967000 + 10000)) 4294967000 (poll_delay 10) ≡ leb (poll_delay 10) 10000)
    × (poll_delay 10 ≡ 10000)
poll_is_due_example = poll_is_due 10 4294967000 10000 (omega arith)
