-- ===== src/Multiprocess/Stale.antt =====
-- What a restart leaves of the process that it replaces.
use framekit.Base.{◌≡◌, nat_eq, string_eq}
use framekit.Multiprocess.{MultiprocessRuntime}
use framekit.Multiprocess.Replaced.{SameChildren}

module _ {W C D : Type 0} where
  -- What the budget leaves alone.
  record SameSetup (r r' : MultiprocessRuntime W C D) : Type 0 where
    children : SameChildren r r'
    launchers : r'.process_launcher ≡ r.process_launcher
    hooks : r'.lifecycle_hooks ≡ r.lifecycle_hooks
    specs : r'.spec ≡ r.spec
    worlds : r'.world ≡ r.world
