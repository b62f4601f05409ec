-- ===== src/Linux/Power/Agree.antt =====
-- The two ways to ask whether the system is on AC power.
use pypsutil.Prelude.{
  ◌≡◌, refl, sym, ap, ◌∙◌, ◌||◌, inl, inr, Bool, true, false, Option, none, some, List, [], ◌∷◌,
  ◌++◌, arith, Bool-cases, any,
}
use pypsutil.Prelude.Exn.{Result, ok, err}
use pypsutil.Util.Power.{AcPowerInfo, PowerSupplySensorInfo, is_on_ac_power}
use pypsutil.Linux.Power.{
  SupplyInfo, empty_info, sort_items, ac_loop, sensors_power, sensors_is_on_ac_power,
}

abbrev online : PowerSupplySensorInfo → Bool
online info = any (λ (s : AcPowerInfo). s.is_online) info.ac_supplies

abbrev pub asked : Result PowerSupplySensorInfo → Result (Option Bool)
asked (ok info) = ok (is_on_ac_power info)
asked (err e) = err e

online-append :
    (l : List AcPowerInfo) (m : AcPowerInfo)
    → any (λ (s : AcPowerInfo). s.is_online) (l ++ (m ∷ []))
      ≡ (any (λ (s : AcPowerInfo). s.is_online) l || m.is_online)
online-append [] m = ground arith
online-append (x ∷ l) m = ground (arith, online-append l m)

-- A supply that is online stays in the lists.
online-sort_items :
    (items : List SupplyInfo) (info : PowerSupplySensorInfo)
    → online info ≡ true
    → online (sort_items items info) ≡ true
unfolding sort_items
online-sort_items [] info h = h
online-sort_items (SupplyInfo.battery b ∷ items) info h = online-sort_items items _ h
online-sort_items (SupplyInfo.mains m ∷ items) info h =
    online-sort_items items _ (online-append info.ac_supplies m ∙ ground arith)

online-is_on_ac_power :
    (info : PowerSupplySensorInfo) → online info ≡ true → is_on_ac_power info ≡ some true
unfolding is_on_ac_power
online-is_on_ac_power info h = rw h

ac_loop-sort_items :
    (items : List SupplyInfo) (info : PowerSupplySensorInfo)
    → online info ≡ false
    → ac_loop items none info ≡ ok (is_on_ac_power (sort_items items info))
unfolding ac_loop sort_items
ac_loop-sort_items [] info h = refl
ac_loop-sort_items (SupplyInfo.battery b ∷ items) info h = ac_loop-sort_items items _ h
ac_loop-sort_items (SupplyInfo.mains m ∷ items) info h =
    let last = online-append info.ac_supplies m in
    let info' = record info { ac_supplies = info.ac_supplies ++ (m ∷ []) } in
    elim (Bool-cases m.is_online) [
      | inl on ↦ simp on (
          sym (
            ap ok (
              online-is_on_ac_power (sort_items items info')
                (online-sort_items items info' (last ∙ ground arith)))))
      | inr off ↦ simp off (ac_loop-sort_items items info' (last ∙ simp (off, h)))
    ]

-- As long as the supplies can be read, the shortcut gives the answer that the full list of batteries
-- and supplies gives, whatever stands behind the first supply that is online.
pub sensors_is_on_ac_power-sensors_power :
    (items : List SupplyInfo)
    → sensors_is_on_ac_power (items, none) ≡ asked (sensors_power (items, none))
unfolding sensors_is_on_ac_power sensors_power
sensors_is_on_ac_power-sensors_power items = ac_loop-sort_items items empty_info refl
