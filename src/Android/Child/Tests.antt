-- ===== src/Android/Child/Tests.antt =====
-- The child on a kernel that grants every call but a look below a /dev that a new tmpfs covers.
use lumi_os.Base.{refl, Bool, true, not, ◌&&◌, [], codes}
use lumi_os.Android.Child.{Call, stat, Trace, Host, ChildConfig, container_child}
use lumi_os.Android.Child.Devices.{below_dev, over_dev, Hides, Unbound, container_child-Unbound}

abbrev grants : Trace → Call → Bool
grants t (stat path) = not (over_dev t && below_dev path)
grants t c = true

abbrev plain_host : Host
plain_host = record { grants = grants; props_file = λ t. [] }

plain_host-Hides : Hides plain_host
plain_host-Hides t path o b = rw (o, b) refl

abbrev with_gpu : ChildConfig
with_gpu = record { gpu_passthrough = true; hostname = codes "android" }

container_child-Unbound_example : Unbound (container_child plain_host with_gpu []).1
container_child-Unbound_example =
    container_child-Unbound plain_host plain_host-Hides with_gpu (λ t. refl)
