-- ===== src/Installer/Restores.antt =====
-- packages/plugin/src/pool/installer.ts: what disabling leaves of an installation.
use dsh_opencode.Base.{
  ℕ, ◌≡◌, ◌≢◌, refl, Bool, true, false, List, [], ◌∷◌, Text, codes, Option, none, some, arith,
  text_dec,
}
use dsh_opencode.Installer.{
  ours, World, Installer, detect_foreign, engage, install, disable, new_installer,
  set_installer_hosts, owned_by,
}

-- The installer holds something exactly while it is enabled.
pub record IsSettled (i : Installer) : Type 0 where
  pub previous : i.enabled ≡ false → i.previous ≡ none
  pub current : i.enabled ≡ false → i.current ≡ none
  pub saved : i.enabled ≡ false → i.saved_fetch ≡ none
  pub running : i.enabled ≡ true → i.current ≢ none

-- The calls on an installer, and what other code does to the slots in between.
pub data Move : Type 0 where
  installs disables disables_throwing : Move
  sets_hosts : Option (List Text) → Move
  sets_world : World → Move

module _ (returns_previous : Bool) (module_fetch : Option ℕ) where
  unfoldable pub move : Move → World × Installer → World × Installer
  unfolding install disable set_installer_hosts
  move Move.installs (w, i) = install returns_previous module_fetch w i
  move Move.disables (w, i) = disable false w i
  move Move.disables_throwing (w, i) = disable true w i
  move (Move.sets_hosts hosts) (w, i) = (w, set_installer_hosts hosts i)
  move (Move.sets_world v) (w, i) = (v, i)

  unfoldable pub moves : List Move → World × Installer → World × Installer
  unfolding move
  moves [] s = s
  moves (m ∷ ms) s = moves ms (move m s)

  install-IsSettled :
      (w : World) (i : Installer)
      → IsSettled i
      → IsSettled (install returns_previous module_fetch w i).1
  unfolding install engage
  install-IsSettled w i s = record {
    previous = ground (arith, s.previous);
    current = ground (arith, s.current);
    saved = ground (arith, s.saved);
    running = ground (arith, s.running);
  }

  disable-IsSettled :
      (throws : Bool) (w : World) (i : Installer) → IsSettled i → IsSettled (disable throws w i).1
  unfolding disable
  disable-IsSettled throws w i s = record {
    previous = ground (arith, s.previous);
    current = ground (arith, s.current);
    saved = ground (arith, s.saved);
    running = ground (arith, s.running);
  }

  set_installer_hosts-IsSettled :
      (hosts : Option (List Text)) (i : Installer)
      → IsSettled i
      → IsSettled (set_installer_hosts hosts i)
  unfolding set_installer_hosts
  set_installer_hosts-IsSettled hosts i s = record {
    previous = ground (arith, s.previous);
    current = ground (arith, s.current);
    saved = ground (arith, s.saved);
    running = ground (arith, s.running);
  }

  moves-IsSettled :
      (ms : List Move) (w : World) (i : Installer) → IsSettled i → IsSettled (moves ms (w, i)).1
  unfolding moves move
  moves-IsSettled [] w i s = s
  moves-IsSettled (Move.installs ∷ ms) w i s = moves-IsSettled ms _ _ (install-IsSettled w i s)
  moves-IsSettled (Move.disables ∷ ms) w i s =
      moves-IsSettled ms _ _ (disable-IsSettled false w i s)
  moves-IsSettled (Move.disables_throwing ∷ ms) w i s =
      moves-IsSettled ms _ _ (disable-IsSettled true w i s)
  moves-IsSettled (Move.sets_hosts hosts ∷ ms) w i s =
      moves-IsSettled ms w _ (set_installer_hosts-IsSettled hosts i s)
  moves-IsSettled (Move.sets_world v ∷ ms) w i s = moves-IsSettled ms v i s

pub new_installer-IsSettled : (hosts : Option (List Text)) → IsSettled (new_installer hosts)
unfolding new_installer
new_installer-IsSettled hosts = record {
  previous = λ e. refl;
  current = λ e. refl;
  saved = λ e. refl;
  running = λ e. cc;
}

-- The slots as they were before.
abbrev pub SameSlots : World → World → Type 0
SameSlots v w = (v.dispatcher ≡ w.dispatcher) × (v.fetch ≡ w.fetch)

-- Whatever is called on an installer and whatever others do to the slots in between, it holds a
-- previous dispatcher, a router or a saved fetch only while it is enabled, and then a router.
pub moves-new_installer-IsSettled :
    (returns_previous : Bool) (module_fetch : Option ℕ) (ms : List Move) (w : World)
    (hosts : Option (List Text))
    → IsSettled (moves returns_previous module_fetch ms (w, new_installer hosts)).1
moves-new_installer-IsSettled returns_previous module_fetch ms w hosts =
    moves-IsSettled returns_previous module_fetch ms w (new_installer hosts)
      (new_installer-IsSettled hosts)

abbrev pub installed : Bool → Option ℕ → World → Installer → World × Installer
installed returns_previous module_fetch w i = install returns_previous module_fetch w i

abbrev pub undone : Bool → Option ℕ → World → Installer → World × Installer
undone returns_previous module_fetch w i =
    let s = installed returns_previous module_fetch w i in disable false s.0 s.1

-- Where undici's setter returns the dispatcher that it replaces, an installation that is undone
-- leaves the slot of the dispatcher, if there was one, and the slot of fetch as they were, and the
-- installer off.
pub disable-install :
    (module_fetch : Option ℕ) (w : World) (i : Installer)
    → IsSettled i
    → i.enabled ≡ false
    → w.dispatcher ≢ none
    → ((undone true module_fetch w i).1.enabled ≡ false)
      × SameSlots (undone true module_fetch w i).0 w
unfolding install engage disable
disable-install module_fetch w i s off there =
    ground (arith, s.previous off, s.current off, s.saved off)

undone-keeps :
    (module_fetch : Option ℕ) (w : World) (i : Installer)
    → IsSettled i
    → i.enabled ≡ false
    → detect_foreign w.dispatcher ≡ none
    → let left = undone false module_fetch w i in
      (left.1.enabled ≡ false)
      × (left.0.dispatcher ≡ some (ours w.next_router))
      × (left.0.destroyed ≡ w.next_router ∷ w.destroyed)
unfolding install engage disable
undone-keeps module_fetch w i s off free =
    ground (arith, s.previous off, s.current off, s.saved off)

detect_ours :
    (r : ℕ) → detect_foreign (some (ours r)) ≡ some (owned_by (codes "PoolRoutingDispatcher"))
unfolding detect_foreign text_dec
detect_ours r = refl

-- Where the setter returns nothing and no foreign dispatcher stands in the slot, an installation
-- that is undone leaves its own router in the slot, destroyed; and the next installation is deferred
-- and changes nothing: routing can not be enabled again.
pub install-disable_void :
    (module_fetch : Option ℕ) (w : World) (i : Installer)
    → IsSettled i
    → i.enabled ≡ false
    → detect_foreign w.dispatcher ≡ none
    → let left = undone false module_fetch w i in
      let again = install false module_fetch left.0 left.1 in
      (left.0.dispatcher ≡ some (ours w.next_router))
      × (left.0.destroyed ≡ w.next_router ∷ w.destroyed)
      × (again.0 ≡ left.0)
      × (again.1.enabled ≡ false)
unfolding install
install-disable_void module_fetch w i s off free =
    let (idle, slot, dead) = undone-keeps module_fetch w i s off free in
    let left = undone false module_fetch w i in
    let taken : detect_foreign left.0.dispatcher ≡ some (owned_by (codes "PoolRoutingDispatcher")) =
      rw slot (detect_ours w.next_router) in
    (slot, dead, rw (idle, taken, install) refl, rw (idle, taken, install) idle)
