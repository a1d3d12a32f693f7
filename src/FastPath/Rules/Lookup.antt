-- ===== src/FastPath/Rules/Lookup.antt =====
-- What a packet is classified by after a rule is installed.
use g_5g_ims_simulators.Prelude.{
  ℕ, ◌≡◌, ◌≢◌, refl, Bool, true, false, Option, none, some, arith, ◌==◌, if◌then◌else◌, ◌>>=◌,
  ==_refl, ◌∙◌,
}
use g_5g_ims_simulators.Prelude.Tables.{find, insert, find-insert}
use g_5g_ims_simulators.FastPath.Packet.{Direction, ul, dl, Packet}
use g_5g_ims_simulators.FastPath.Rules.{Pdr, RuleTable, add_pdr, match_pdr, index_pdr, pdr_key}

-- Whether a rule is one for the packet: the direction and the key of that direction agree.
abbrev pub selects : Direction → Direction → Pdr → Packet → Bool
selects ul ul pdr pkt = pdr.teid == pkt.teid
selects dl dl pdr pkt = pdr.ue_ip == pkt.ue_ip
selects ul dl pdr pkt = false
selects dl ul pdr pkt = false

pdr_key-add_pdr :
    (d e : Direction) (rt : RuleTable) (pdr : Pdr) (pkt : Packet)
    → pdr.dir ≡ d
    → pkt.dir ≡ e
    → pdr_key pkt.dir (add_pdr rt pdr) pkt
      ≡ (if selects d e pdr pkt then some pdr.pdr_id else pdr_key pkt.dir rt pkt)
unfolding pdr_key add_pdr
pdr_key-add_pdr ul ul rt pdr pkt p q =
    rw (p, q) (find-insert pdr.teid pkt.teid pdr.pdr_id rt.teid_to_pdr)
pdr_key-add_pdr dl dl rt pdr pkt p q =
    rw (p, q) (find-insert pdr.ue_ip pkt.ue_ip pdr.pdr_id rt.ueip_to_pdr)
pdr_key-add_pdr ul dl rt pdr pkt p q = rw (p, q)
pdr_key-add_pdr dl ul rt pdr pkt p q = rw (p, q)

pdrs-index_pdr : (d : Direction) (rt : RuleTable) (pdr : Pdr) → (index_pdr d rt pdr).pdrs ≡ rt.pdrs
unfolding index_pdr
pdrs-index_pdr ul rt pdr = refl
pdrs-index_pdr dl rt pdr = refl

pdrs-add_pdr :
    (rt : RuleTable) (pdr : Pdr) (id : ℕ)
    → find id (add_pdr rt pdr).pdrs ≡ (if pdr.pdr_id == id then some pdr else find id rt.pdrs)
unfolding add_pdr
pdrs-add_pdr rt pdr id =
    rw (pdrs-index_pdr pdr.dir (record rt { pdrs = insert pdr.pdr_id pdr rt.pdrs }) pdr)
      (find-insert pdr.pdr_id id pdr rt.pdrs)

-- A packet of the rule's direction and key is classified by the rule just installed; any other
-- packet by what it was classified by before, unless that has been replaced under its identifier.
pub match-add_pdr :
    (rt : RuleTable) (pdr : Pdr) (pkt : Packet)
    → match_pdr (add_pdr rt pdr) pkt ≡ (
        if selects pdr.dir pkt.dir pdr pkt
        then some pdr
        else pdr_key pkt.dir rt pkt >>= λ id.
            if pdr.pdr_id == id then some pdr else find id rt.pdrs)
unfolding match_pdr
match-add_pdr rt pdr pkt =
    rw (pdr_key-add_pdr pdr.dir pkt.dir rt pdr pkt refl refl)
      (by_key (selects pdr.dir pkt.dir pdr pkt) (pdr_key pkt.dir rt pkt))
  where
    by_key :
        (b : Bool) (o : Option ℕ)
        → ((if b then some pdr.pdr_id else o) >>= λ id. find id (add_pdr rt pdr).pdrs) ≡ (
            if b
            then some pdr
            else o >>= λ id. if pdr.pdr_id == id then some pdr else find id rt.pdrs)
    by_key true o = rw (pdrs-add_pdr, ==_refl)
    by_key false none = refl
    by_key false (some id) = pdrs-add_pdr rt pdr id

-- A rule installed again under its identifier, with another tunnel identifier, leaves the index
-- entry of the old one behind: packets of the old tunnel are classified by the new rule, though
-- that rule is for another tunnel.
pub stale_teid :
    (rt : RuleTable) (old new : Pdr) (pkt : Packet)
    → old.dir ≡ ul
    → new.dir ≡ ul
    → pkt.dir ≡ ul
    → new.pdr_id ≡ old.pdr_id
    → pkt.teid ≡ old.teid
    → old.teid ≢ new.teid
    → match_pdr (add_pdr (add_pdr rt old) new) pkt ≡ some new
stale_teid rt old new pkt o n d same t ne =
    match-add_pdr (add_pdr rt old) new pkt
    ∙ rw (pdr_key-add_pdr old.dir pkt.dir rt old pkt refl refl, o, n, d) (ground arith)
