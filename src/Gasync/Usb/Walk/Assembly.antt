-- ===== src/Gasync/Usb/Walk/Assembly.antt =====
-- The settings of an interface and the interfaces of a configuration, built from their descriptors.
use serialusb.Common.{
  suc, ◌+◌, ◌%◌, ◌<◌, ◌≤◌, ◌≡◌, refl, sym, ap, ◌∙◌, false, Option, some, List, [], ◌∷◌, ◌++◌, map,
  arith, leb, get_or, set, length, take-all, append_assoc, append-nil, length-append, replicate,
  subst,
}
use serialusb.Gasync.Usb.{Configuration, Interface, InterfaceDescriptor, AltInterface}
use serialusb.Gasync.Usb.Probe.{num_interfaces, no_interface, new_alt}
use serialusb.Gasync.Usb.Walk.Items.{Item, apply_items}
use serialusb.Gasync.Usb.Walk.Tree.{
  Setting, IsSetting, setting_items, interface_items, tree_items, hid_items, hid_view,
  endpoint_items, setting_view, interface_view, tree_view, AreSettings, AreInterfaces,
}
use serialusb.Gasync.Usb.Walk.Building.{
  building, get_or-append, set-append, apply_items-endpoints, apply_items-hid,
}

-- The descriptors of a setting, after those of the settings before it.
apply_items-setting :
    (c : Configuration) (done later : List Interface) (before : List AltInterface)
    (current : Option InterfaceDescriptor) (s : Setting) (ys : List Item)
    → length done < num_interfaces c
    → length before < 255
    → IsSetting (length done) (length before) s
    → apply_items current (setting_items s ++ ys) (building c done (interface_view before) later)
      ≡ apply_items
          (some s.descriptor)
          ys
          (building c done (interface_view (before ++ (setting_view s ∷ []))) later)
apply_items-setting c done later before current s ys in_range few v =
    let i = s.descriptor in
    let n = i.b_interface_number in
    let low : leb (num_interfaces c) n ≡ false = rw v.number (ground arith) in
    let here : get_or (done ++ (interface_view before ∷ later)) n no_interface
        ≡ interface_view before =
      rw v.number (get_or-append done later (interface_view before) no_interface) in
    let last : Interface = record {
      b_num_alt_interfaces = suc (length before);
      alt_interfaces = before ++ (new_alt i ∷ []);
    } in
    let placed : set (done ++ (interface_view before ∷ later)) n last ≡ done ++ (last ∷ later) =
      ap (λ m. set (done ++ (interface_view before ∷ later)) m last) v.number
      ∙ set-append done later (interface_view before) last in
    let count : (length before + 1) % 256 ≡ suc (length before) = ground arith in
    let all = take-all (length before) before (omega arith) in
    let added = new_alt i in
    let with_hid : AltInterface = record added { hid_descriptor = hid_view s.hid_descriptor } in
    let total : length (before ++ (setting_view s ∷ [])) ≡ suc (length before) =
      omega (arith, length-append before (setting_view s ∷ [])) in
    let first : length added.endpoints + length s.endpoints ≡ length s.endpoints = omega arith in
    rw
      (
        low,
        here,
        count,
        all,
        placed,
        append_assoc (hid_items s.hid_descriptor) (endpoint_items s.endpoints) ys,
        apply_items-hid c done later in_range i v.number before v.setting s.hid_descriptor
            (endpoint_items s.endpoints ++ ys) added refl v.of_class,
        apply_items-endpoints c done later in_range i v.number before v.setting s.endpoints ys
            with_hid refl (omega (arith, v.few)),
        total,
        first,
      )
      refl

-- All settings of an interface.
apply_items-interface :
    (c : Configuration) (done later : List Interface) (before : List AltInterface)
    (current : Option InterfaceDescriptor) (ss : List Setting) (ys : List Item)
    → length done < num_interfaces c
    → length before + length ss < 256
    → AreSettings (length done) (length before) ss
    → (last : Option InterfaceDescriptor) × (apply_items current
          (interface_items ss ++ ys)
          (building c done (interface_view before) later)
        ≡ apply_items last ys
            (building c done (interface_view (before ++ map setting_view ss)) later))
apply_items-interface c done later before current [] ys in_range few v =
    (current, rw (append-nil before) refl)
apply_items-interface c done later before current (s ∷ ss) ys in_range few v =
    let first =
      apply_items-setting c done later before current s (interface_items ss ++ ys) in_range
        (omega arith) v.0 in
    let next = before ++ (setting_view s ∷ []) in
    let len : length next ≡ length before + 1 =
      omega (arith, length-append before (setting_view s ∷ [])) in
    let (last, rest) =
      apply_items-interface c done later next (some s.descriptor) ss ys in_range
        (omega (arith, len)) (subst (λ a. AreSettings (length done) a ss) (sym len) v.1) in
    let now = building c done (interface_view before) later in
    (
      last,
      ap (λ zs. apply_items current zs now) (append_assoc (setting_items s) (interface_items ss) ys)
          ∙ first
          ∙ rest
          ∙ ap (λ xs. apply_items last ys (building c done (interface_view xs) later))
              (append_assoc before (setting_view s ∷ []) (map setting_view ss)),
    )

-- All interfaces of a configuration.
pub apply_items-tree :
    (c : Configuration) (done : List Interface) (current : Option InterfaceDescriptor)
    (tree : List (List Setting))
    → length done + length tree ≤ num_interfaces c
    → AreInterfaces (length done) tree
    → apply_items current
        (tree_items tree)
        (record c { interfaces = done ++ replicate (length tree) no_interface })
      ≡ some (record c { interfaces = done ++ tree_view tree })
apply_items-tree c done current [] in_range v = refl
apply_items-tree c done current (ss ∷ tree) in_range v =
    let later = replicate (length tree) no_interface in
    let (last, first) =
      apply_items-interface c done later [] current ss (tree_items tree) (omega arith)
        (omega (arith, v.1)) v.0 in
    let built = interface_view (map setting_view ss) in
    let next = done ++ (built ∷ []) in
    let len : length next ≡ length done + 1 = omega (arith, length-append done (built ∷ [])) in
    let rest =
      apply_items-tree c next last tree (omega (arith, len))
        (subst (λ n. AreInterfaces n tree) (sym len) v.2) in
    first
    ∙ ap (λ xs. apply_items last (tree_items tree) (record c { interfaces = xs }))
        (sym (append_assoc done (built ∷ []) later))
    ∙ rest
    ∙ ap (λ xs. some (record c { interfaces = xs }))
        (append_assoc done (built ∷ []) (tree_view tree))
