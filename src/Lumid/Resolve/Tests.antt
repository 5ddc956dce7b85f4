-- ===== src/Lumid/Resolve/Tests.antt =====
-- The dependency resolution of two services.
use lumi_os.Base.{◌≡◌, ◌⊎◌, ◌↔◌, pos, neg}
use lumi_os.Lumid.Resolve.{svc_array, service_resolve_deps}
use lumi_os.Lumid.Resolve.Graph.{HasCycle}
use lumi_os.Lumid.Resolve.Order.{
  IsTopological, service_resolve_deps-IsTopological, service_resolve_deps_iff,
}
use lumi_os.Lumid.Samples.{two_services}

service_resolve_deps-IsTopological_example :
    ((service_resolve_deps two_services).0 ≡ pos 0)
      × IsTopological (svc_array two_services) (service_resolve_deps two_services).1.start_order
    ⊎ ((service_resolve_deps two_services).0 ≡ neg 1) × HasCycle (svc_array two_services)
service_resolve_deps-IsTopological_example = service_resolve_deps-IsTopological two_services

service_resolve_deps_iff_example :
    (((service_resolve_deps two_services).0 ≡ pos 0) ↔ (¬ HasCycle (svc_array two_services)))
    × (((service_resolve_deps two_services).0 ≡ neg 1) ↔ HasCycle (svc_array two_services))
service_resolve_deps_iff_example = service_resolve_deps_iff two_services
