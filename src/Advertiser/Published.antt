-- ===== src/Advertiser/Published.antt =====
-- What Avahi publishes for the advertiser (madt-server/AvahiService.cpp), told from the calls that it has
-- had: the service that the advertiser stands for.
use open_madt.Prelude.{
  ℕ, Bool, true, false, List, [], ◌∷◌, Bytes, ◌≡◌, refl, sym, ap, arith, ◌∙◌, Bool-cases, inl, inr,
  if◌then◌else◌, subst,
}
use open_madt.Advertiser.{
  Call, Calls, AvahiService, group_new, group_free, group_reset, group_is_empty, group_commit,
  add_service, create_or_update_service, fill_group, add_to_group, perform,
}

pub record Service : Type 0 where
  pub name : Bytes
  pub service_type : Bytes
  pub port : ℕ
  pub txt : List (Bytes × Bytes)

-- The entry group of Avahi.
pub data Group : Type 0 where
  absent empty : Group
  added published : Service → Group

abbrev commit : Group → Group
commit absent = absent
commit empty = empty
commit (added s) = published s
commit (published s) = published s

-- The group after one more call, by the documentation of Avahi.
abbrev after_call : Call × Bool → Group → Group
after_call (group_new, true) g = empty
after_call (group_free, true) g = absent
after_call (group_reset, true) g = empty
after_call (add_service name service_type port txt, true) g =
    added (record { name = name; service_type = service_type; port = port; txt = txt })
after_call (group_commit, true) g = commit g
after_call _ g = g

abbrev pub group_of : Calls → Group
group_of [] = absent
group_of (c ∷ calls) = after_call c (group_of calls)

abbrev pub is_blank : Group → Bool
is_blank absent = true
is_blank empty = true
is_blank (added s) = false
is_blank (published s) = false

-- Avahi grants what it is asked for, and says of the group whether it is empty.
abbrev pub Grants : (Calls → Call → Bool) → Type 0
Grants answer =
    (calls : Calls) (c : Call)
    → answer calls c ≡ (elim c [ group_is_empty ↦ is_blank (group_of calls) | _ ↦ true ])

abbrev pub service_of : AvahiService → Service
service_of s = record {
  name = s.current_name;
  service_type = s.service_type;
  port = s.port;
  txt = s.txt;
}

-- The group holds the service of the advertiser, or there is none.
abbrev pub Publishes : AvahiService → Type 0
Publishes s = group_of s.calls ≡ (if s.group then published (service_of s) else absent)

module _ (answer : Calls → Call → Bool) (grants : Grants answer) where
  fill_full :
      (s : AvahiService)
      → is_blank (group_of s.calls) ≡ false
      → fill_group answer s ≡ record s { calls = (group_is_empty, false) ∷ s.calls }
  unfolding fill_group
  fill_full s full = let no_room = grants s.calls group_is_empty ∙ full in rw no_room refl

  fill_blank :
      (s : AvahiService)
      → is_blank (group_of s.calls) ≡ true
      → fill_group answer s ≡ record s {
        calls =
            (group_commit, true)
            ∷ (add_service s.current_name s.service_type s.port s.txt, true)
            ∷ (group_is_empty, true)
            ∷ s.calls;
      }
  unfolding fill_group add_to_group
  fill_blank s blank =
      let room = grants s.calls group_is_empty ∙ blank in
      let calls = (group_is_empty, true) ∷ s.calls in
      let service = add_service s.current_name s.service_type s.port s.txt in
      let committed = grants ((service, true) ∷ calls) group_commit in
      rw (room, grants calls service, committed) refl

  -- A group that is there is filled if it is empty.
  fill_empty :
      (s : AvahiService)
      → s.group ≡ true
      → is_blank (group_of s.calls) ≡ true
      → Publishes (fill_group answer s)
  fill_empty s g blank = subst Publishes (sym (fill_blank s blank)) (rw g refl)

  fill_published :
      (s : AvahiService) → s.group ≡ true → Publishes s → Publishes (fill_group answer s)
  fill_published s g p =
      let full : is_blank (group_of s.calls) ≡ false = ground (arith, ap is_blank p) in
      subst Publishes (sym (fill_full s full)) p

  update_have :
      (s : AvahiService) → s.group ≡ true → create_or_update_service answer s ≡ fill_group answer s
  unfolding create_or_update_service
  update_have s g = rw (g, create_or_update_service) refl

  update_new :
      (s : AvahiService)
      → s.group ≡ false
      → create_or_update_service answer s
        ≡ fill_group answer (record s { group = true; calls = (group_new, true) ∷ s.calls })
  unfolding create_or_update_service
  update_new s g = rw (g, create_or_update_service, grants s.calls group_new) refl

  pub update-Publishes :
      (s : AvahiService) → Publishes s → Publishes (create_or_update_service answer s)
  update-Publishes s p = elim (Bool-cases s.group) [
    | inl g ↦ subst Publishes (sym (update_have s g)) (fill_published s g p)
    | inr g ↦
        subst Publishes (sym (update_new s g))
          (fill_empty (record s { group = true; calls = (group_new, true) ∷ s.calls }) refl refl)
  ]

  -- After a reset the group is filled with what the advertiser stands for now.
  pub renew-Publishes :
      (s : AvahiService)
      → s.group ≡ true
      → Publishes (create_or_update_service answer (perform group_reset s))
  renew-Publishes s g =
      subst Publishes (sym (update_have (perform group_reset s) g))
        (fill_empty (perform group_reset s) g refl)
