-- ===== src/Interaction/Coordinator.antt =====
-- src/agent/interaction.ts: the coordinator's table of entries. Renderers and views are not kept. A
-- view that outlives its entry can submit only to an entry that is terminal, or whose coordinator is
-- disposed, which `submit` refuses.
use jupyter_plugin_aitermina.Protocol.Dsh.{
  CapabilityManifest, RunScope, Request, InteractionResolution,
}
use jupyter_plugin_aitermina.Interaction.Entries.{
  Entry, resolve, cancel, new_entry, submit, HostAnswer,
}
use jupyter_plugin_aitermina.Base.{
  Text, Option, if◌then◌else◌, List, Bool, find, true, text_eq, none, false, [], some, ◌∷◌, keep,
  ◌++◌, not,
}
use jupyter_plugin_aitermina.Interaction.{interaction_key, is_terminal, InteractionInput}

-- The `Map` of the coordinator in the order of insertion.
pub record InteractionCoordinator : Type 0 where
  pub capabilities : CapabilityManifest
  pub entries : List Entry
  pub disposed : Bool

abbrev pub key_of : Entry → Text
key_of e = interaction_key e.scope e.request.request_id

abbrev pub has_key : Text → Entry → Bool
has_key key e = text_eq (key_of e) key

unfoldable pub set_capabilities :
    CapabilityManifest → InteractionCoordinator → InteractionCoordinator
set_capabilities capabilities c = record c { capabilities = capabilities }

abbrev pub request_entry :
    Option Entry
    → RunScope
    → Request
    → InteractionCoordinator
    → InteractionCoordinator × Option Entry
request_entry (some e) scope request c = (c, some e)
request_entry none scope request c =
    let e = new_entry scope request in (record c { entries = c.entries ++ e ∷ [] }, some e)

unfoldable pub handle_requested :
    RunScope → Request → InteractionCoordinator → InteractionCoordinator × Option Entry
handle_requested scope request c =
    if c.disposed
    then (c, none)
    else request_entry (find (has_key (interaction_key scope request.request_id)) c.entries) scope
        request c

-- An assignment to the entry under a key.
unfoldable pub set_entry : Text → Entry → List Entry → List Entry
set_entry key d [] = []
set_entry key d (e ∷ es) = if has_key key e then d ∷ es else e ∷ set_entry key d es

unfoldable pub with_entry :
    Text
    → Option Entry
    → (Entry → Entry × Bool)
    → InteractionCoordinator
    → InteractionCoordinator × Bool
unfolding set_entry
with_entry key none f c = (c, false)
with_entry key (some e) f c =
    let (d, changed) = f e in (record c { entries = set_entry key d c.entries }, changed)

unfoldable pub handle_resolved :
    RunScope → Text → InteractionResolution → InteractionCoordinator → InteractionCoordinator × Bool
unfolding resolve with_entry
handle_resolved scope id resolution c =
    let key = interaction_key scope id in
    with_entry key (find (has_key key) c.entries) (resolve resolution) c

unfoldable pub handle_cancelled :
    RunScope → Text → InteractionCoordinator → InteractionCoordinator × Bool
unfolding cancel with_entry
handle_cancelled scope id c =
    let key = interaction_key scope id in with_entry key (find (has_key key) c.entries) cancel c

abbrev pub get_record : RunScope → Text → InteractionCoordinator → Option Entry
get_record scope id c = find (has_key (interaction_key scope id)) c.entries

abbrev pub dismiss_entry :
    Text → Option Entry → InteractionCoordinator → InteractionCoordinator × Bool
dismiss_entry key none c = (c, false)
dismiss_entry key (some e) c =
    if is_terminal e.phase
    then (record c { entries = keep (λ d. not (has_key key d)) c.entries }, true)
    else (c, false)

unfoldable pub dismiss : RunScope → Text → InteractionCoordinator → InteractionCoordinator × Bool
dismiss scope id c =
    let key = interaction_key scope id in dismiss_entry key (find (has_key key) c.entries) c

unfoldable pub dispose : InteractionCoordinator → InteractionCoordinator
dispose c = if c.disposed then c else record c { disposed = true; entries = [] }

unfoldable pub submit_entry :
    Text
    → Option Entry
    → InteractionInput
    → HostAnswer
    → InteractionCoordinator
    → InteractionCoordinator × Option InteractionInput
unfolding submit set_entry
submit_entry key none raw answer c = (c, none)
submit_entry key (some e) raw answer c =
    let (d, handed) = submit c.disposed c.capabilities raw answer e in
    (record c { entries = set_entry key d c.entries }, handed)

-- `actions.resolve` of the view of the entry under a key.
unfoldable pub submit_at :
    Text
    → InteractionInput
    → HostAnswer
    → InteractionCoordinator
    → InteractionCoordinator × Option InteractionInput
unfolding submit_entry
submit_at key raw answer c = submit_entry key (find (has_key key) c.entries) raw answer c
