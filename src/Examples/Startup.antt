-- ===== src/Examples/Startup.antt =====
-- A kernel that keeps the lines of its mountinfo, a stream of interface events, and an API server that
-- keeps one Config.
use bpfman_operator.Shared.{
  Bool, true, false, ◌||◌, String, some, List, [], ◌∷◌, string_eq, any, ◌≡◌, refl, sym, subst, ap,
}
use bpfman_operator.Bpffs.{Kernel, directory, is_bpf_line, is_mounted, handle_mount_bpffs}
use bpfman_operator.Bpffs.Mounted.{Shows, handle_mount_bpffs-IsThere}
use bpfman_operator.Agent.Discovery.{
  InterfaceEvent, event_added, event_deleted, cancelled, Run, done, received, handle_event,
}
use bpfman_operator.Agent.Discovery.Tracked.{has, last_said, Run-has}
use bpfman_operator.Operator.Config.{Config, Got, found, not_found, ConfigApi}
use bpfman_operator.Operator.Startup.{
  config_name, default_config, ensure_default_config, config_reconciler,
}
use bpfman_operator.Operator.Startup.Present.{
  IsCreating, IsPresent, ensure_default_config-IsPresent,
}

abbrev mount_line : String
mount_line = "30 22 0:27 / /sys/fs/bpf rw,nosuid shared:9 - bpf bpf rw,mode=700"

abbrev kernel : Kernel
kernel = record {
  State = List String;
  mount_info = λ path lines. some (lines, false);
  stat = λ path lines. directory;
  mkdir_all = λ path lines. (true, lines);
  mount = λ path lines. (true, mount_line ∷ lines);
  unmount = λ path lines. (true, []);
}

mount_line_found : is_bpf_line "/sys/fs/bpf" mount_line ≡ true
unfolding is_bpf_line
mount_line_found = refl

other_line_not_found :
    is_bpf_line "/sys/fs/bpf" "24 30 0:22 / /sys/fs/bpf rw - tmpfs tmpfs rw" ≡ false
unfolding is_bpf_line
other_line_not_found = refl

kernel-Shows : Shows kernel "/proc/self/mountinfo" "/sys/fs/bpf"
kernel-Shows = record {
  shows = λ s s' h. (
    s',
    false,
    refl,
    subst (λ lines. any (is_bpf_line "/sys/fs/bpf") lines ≡ true) (ap (λ r. r.1) h)
        (ap (λ b. b || any (is_bpf_line "/sys/fs/bpf") s) mount_line_found),
  );
}

handle_mount_bpffs-IsThere_example :
    is_mounted kernel "/proc/self/mountinfo" "/sys/fs/bpf" (mount_line ∷ []) ≡ some true
unfolding handle_mount_bpffs is_bpf_line
handle_mount_bpffs-IsThere_example =
    handle_mount_bpffs-IsThere kernel "/proc/self/mountinfo" "/sys/fs/bpf" kernel-Shows true
      (mount_line ∷ []) (mount_line ∷ [])
      "bpffs unmounted at /sys/fs/bpf\nbpffs mounted at /sys/fs/bpf\n" refl

abbrev events : List (InterfaceEvent String)
events = event_added "eth0" ∷ event_added "eth1" ∷ event_deleted "eth0" ∷ []

events-Run : Run [] events cancelled (("eth1", true) ∷ [])
unfolding handle_event
events-Run =
    received _ _ _ _ _ (received _ _ _ _ _ (received _ _ _ _ _ (done (("eth1", true) ∷ []))))

Run-has_example :
    has {I = String} "eth1" (("eth1", true) ∷ [])
    ≡ last_said {I = String} "eth1" (has {I = String} "eth1" []) events
Run-has_example = Run-has "eth1" [] events cancelled (("eth1", true) ∷ []) events-Run

abbrev server : ConfigApi
server = record {
  Cluster = Got Config;
  get_config = λ name c. c;
  update_config = λ config c. (true, found config);
  get = λ k namespace name c. not_found;
  create = λ k object c. (true, c);
  update = λ k object c. (true, c);
  get_namespace = λ name c. not_found;
  update_namespace = λ namespace c. (true, c);
}

abbrev create_config : Config → Got Config → Bool × Got Config
create_config config c = (true, found config)

server-IsCreating : IsCreating server create_config
server-IsCreating = record {
  created = λ config c c' h. (let same : found config ≡ c' = ap (λ r. r.1) h in sym same);
}

ensure_default_config-IsPresent_example :
    IsPresent server create_config server-IsCreating "bpfman" "agent" not_found
      (server.get_config config_name not_found)
      (found (default_config "bpfman" "agent"))
unfolding ensure_default_config
ensure_default_config-IsPresent_example =
    ensure_default_config-IsPresent server create_config server-IsCreating "bpfman" "agent"
      not_found (found (default_config "bpfman" "agent")) refl

open_shift :
    config_reconciler (some "1.30") (some ("apps" ∷ "route.openshift.io" ∷ []))
    ≡ some (record {
      bpfman_standard_ds = "./config/bpfman-deployment/daemonset.yaml";
      bpfman_metrics_proxy_ds = "./config/bpfman-deployment/metrics-proxy-daemonset.yaml";
      csi_driver_ds = "./config/bpfman-deployment/csidriverinfo.yaml";
      is_openshift = true;
      has_monitoring = false;
    })
unfolding config_reconciler
open_shift = refl
