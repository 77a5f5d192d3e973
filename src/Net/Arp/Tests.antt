-- ===== src/Net/Arp/Tests.antt =====
-- The table of hardware addresses when it is full.
use cllm.Common.{◌≡◌, List, [], arith, some, replicate, true}
use cllm.Net.Arp.{Entry, our_mac, arp_store, arp_resolve}
use cllm.Net.Arp.Cache.{arp_resolve-arp_store}

abbrev full : List Entry
full = replicate 4 (record { ip = 7; mac = our_mac; valid = true })

arp_resolve-arp_store_example :
    arp_resolve 9 (arp_store 9 (replicate 6 3) full) ≡ (some (replicate 6 3), [])
arp_resolve-arp_store_example = arp_resolve-arp_store 9 (replicate 6 3) full (omega arith)
