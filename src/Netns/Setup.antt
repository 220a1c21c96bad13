-- ===== src/Netns/Setup.antt =====
-- The commands of `NetnsManager` (agentfork/sandbox/netns.py) for a branch, and `setup` and `teardown`
-- that run them. Characters, the digest and the addresses of the subnet are Python's library
-- (`Host`), and so are the commands' effects on the machine.
use Prim.Native.String.{◌++◌}
use agentfork.Base.{
  ℕ, String, Bool, true, false, ◌&&◌, Option, none, some, List, [], ◌∷◌, map, length, take, leb,
  if◌then◌else◌, same, decimal,
}
use agentfork.Netns.{NetnsManager, allocate, release_slot}

-- The addresses of the /30 with this number: `none` where the subnet has no such /30. `run` says
-- whether the command ended well; `run_unchecked` drops what it raises.
pub record Host (W : Type 0) : Type 0 where
  pub characters : String → List ℕ
  pub joined : List ℕ → String
  pub is_alnum : ℕ → Bool
  pub digest : String → String
  pub host_ip : ℕ → Option String
  pub netns_ip : ℕ → String
  pub veth_net : ℕ → String
  pub run : List String → W → Bool × W
  pub run_unchecked : List String → W → W

pub record Networks (W : Type 0) : Type 0 where
  pub slots : NetnsManager
  pub world : W

module _ {W : Type 0} (host : Host W) (uplink : String) where
  -- 45 is the hyphen.
  abbrev pub safe_part : String → List ℕ
  safe_part id = map (λ c. if host.is_alnum c then c else 45) (host.characters id)

  -- The digest is cut to 8 characters by `digest`.
  unfoldable pub netns_name : String → String
  netns_name id =
      if same (host.joined (safe_part id)) id && leb (length (safe_part id)) 40
      then "af-" ++ host.joined (safe_part id)
      else "af-" ++ host.joined (take 31 (safe_part id)) ++ "-" ++ host.digest id

  abbrev pub host_veth : ℕ → String
  host_veth index = "afh" ++ decimal index

  abbrev pub netns_veth : ℕ → String
  netns_veth index = "afg" ++ decimal index

  -- A command inside of the namespace
  abbrev pub inside : String → List String → List String
  inside ns words = "ip" ∷ "netns" ∷ "exec" ∷ ns ∷ words

  abbrev pub setup_at : String → ℕ → String → List (List String)
  setup_at ns index h_ip =
      let h_veth = host_veth index in
      let g_veth = netns_veth index in
      ("ip" ∷ "netns" ∷ "add" ∷ ns ∷ [])
      ∷ inside ns ("ip" ∷ "tuntap" ∷ "add" ∷ "tap0" ∷ "mode" ∷ "tap" ∷ [])
      ∷ inside ns ("ip" ∷ "addr" ∷ "add" ∷ "172.16.0.1/30" ∷ "dev" ∷ "tap0" ∷ [])
      ∷ inside ns ("ip" ∷ "link" ∷ "set" ∷ "tap0" ∷ "up" ∷ [])
      ∷ ("ip" ∷ "link" ∷ "add" ∷ h_veth ∷ "type" ∷ "veth" ∷ "peer" ∷ "name" ∷ g_veth ∷ [])
      ∷ ("ip" ∷ "link" ∷ "set" ∷ g_veth ∷ "netns" ∷ ns ∷ [])
      ∷ ("ip" ∷ "addr" ∷ "add" ∷ (h_ip ++ "/30") ∷ "dev" ∷ h_veth ∷ [])
      ∷ ("ip" ∷ "link" ∷ "set" ∷ h_veth ∷ "up" ∷ [])
      ∷ inside ns ("ip" ∷ "addr" ∷ "add" ∷ (host.netns_ip index ++ "/30") ∷ "dev" ∷ g_veth ∷ [])
      ∷ inside ns ("ip" ∷ "link" ∷ "set" ∷ g_veth ∷ "up" ∷ [])
      ∷ inside ns ("ip" ∷ "link" ∷ "set" ∷ "lo" ∷ "up" ∷ [])
      ∷ inside ns ("ip" ∷ "route" ∷ "add" ∷ "default" ∷ "via" ∷ h_ip ∷ [])
      ∷ inside ns (
          "iptables" ∷ "-t" ∷ "nat" ∷ "-A" ∷ "POSTROUTING" ∷ "-o" ∷ g_veth ∷ "-j" ∷ "MASQUERADE"
          ∷ [])
      ∷ ("iptables"
          ∷ "-t"
          ∷ "nat"
          ∷ "-A"
          ∷ "POSTROUTING"
          ∷ "-s"
          ∷ host.veth_net index
          ∷ "-o"
          ∷ uplink
          ∷ "-j"
          ∷ "MASQUERADE"
          ∷ [])
      ∷ ("iptables" ∷ "-A" ∷ "FORWARD" ∷ "-i" ∷ h_veth ∷ "-o" ∷ uplink ∷ "-j" ∷ "ACCEPT" ∷ [])
      ∷ ("iptables" ∷ "-A" ∷ "FORWARD" ∷ "-i" ∷ uplink ∷ "-o" ∷ h_veth ∷ "-m" ∷ "state" ∷ "--state"
          ∷ "RELATED,ESTABLISHED" ∷ "-j" ∷ "ACCEPT" ∷ [])
      ∷ []

  abbrev pub teardown_at : String → ℕ → List (List String)
  teardown_at ns index =
      let h_veth = host_veth index in
      ("iptables" ∷ "-D" ∷ "FORWARD" ∷ "-i" ∷ uplink ∷ "-o" ∷ h_veth ∷ "-m" ∷ "state" ∷ "--state"
        ∷ "RELATED,ESTABLISHED" ∷ "-j" ∷ "ACCEPT" ∷ [])
      ∷ ("iptables" ∷ "-D" ∷ "FORWARD" ∷ "-i" ∷ h_veth ∷ "-o" ∷ uplink ∷ "-j" ∷ "ACCEPT" ∷ [])
      ∷ ("iptables"
          ∷ "-t"
          ∷ "nat"
          ∷ "-D"
          ∷ "POSTROUTING"
          ∷ "-s"
          ∷ host.veth_net index
          ∷ "-o"
          ∷ uplink
          ∷ "-j"
          ∷ "MASQUERADE"
          ∷ [])
      ∷ ("ip" ∷ "link" ∷ "del" ∷ h_veth ∷ [])
      ∷ ("ip" ∷ "netns" ∷ "del" ∷ ns ∷ [])
      ∷ []

  abbrev pub for_address :
      Option String → (String → List (List String)) → Option (List (List String))
  for_address none f = none
  for_address (some ip) f = some (f ip)

  -- `setup_cmds` and `teardown_cmds`; `none` is the `IndexError` of `_veth_pair`.
  unfoldable pub setup_cmds : String → ℕ → Option (List (List String))
  setup_cmds id index = for_address (host.host_ip index) (setup_at (netns_name id) index)

  unfoldable pub teardown_cmds : String → ℕ → Option (List (List String))
  teardown_cmds id index =
      for_address (host.host_ip index) (λ ip. teardown_at (netns_name id) index)

  -- The commands up to the first that raises
  unfoldable pub run_all : List (List String) → W → Bool × W
  run_all [] w = (true, w)
  run_all (c ∷ cs) w =
      let (ran, next) = host.run c w in
      let rest = run_all cs next in if ran then rest else (false, next)

  unfoldable pub run_each : List (List String) → W → W
  run_each [] w = w
  run_each (c ∷ cs) w = run_each cs (host.run_unchecked c w)

  abbrev pub torn_down : ℕ → Option (List (List String)) → Networks W → Bool × Networks W
  torn_down index none n = (false, n)
  torn_down index (some cmds) n =
      (true, record { slots = release_slot index n.slots; world = run_each cmds n.world })

  -- `teardown`; `false` where it raises, so that the slot is kept.
  unfoldable pub teardown : String → ℕ → Networks W → Bool × Networks W
  teardown id index n = torn_down index (teardown_cmds id index) n

  abbrev pub try_run : Option (List (List String)) → W → Bool × W
  try_run none w = (false, w)
  try_run (some cmds) w = run_all cmds w

  abbrev pub finished : String → ℕ → NetnsManager → Bool × W → Option (String × ℕ) × Networks W
  finished id index slots (true, w) =
      (some (netns_name id, index), record { slots = slots; world = w })
  finished id index slots (false, w) =
      (none, (teardown id index (record { slots = slots; world = w })).1)

  abbrev pub allocated : String → Option ℕ × NetnsManager → W → Option (String × ℕ) × Networks W
  allocated id (none, slots) w = (none, record { slots = slots; world = w })
  allocated id (some index, slots) w = finished id index slots (try_run (setup_cmds id index) w)

  -- `setup`; `none` where it raises.
  unfoldable pub setup : String → Networks W → Option (String × ℕ) × Networks W
  setup id n = allocated id (allocate n.slots) n.world
