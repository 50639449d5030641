-- ===== src/HttpParser/Cases/From32.antt =====
-- `case 32` to `case 59` of src/http11/http11_parser.c.
use mongrel.Prelude.{[], ◌∷◌}
use mongrel.Ragel.{Switch, goto, when, st0, st, eq, gt, is, lt, within}
use mongrel.HttpParser.{Action}
use mongrel.HttpParser.Labels.{tr4, tr9, tr10}

abbrev pub case_32 : Switch Action
case_32 =
    when (lt 65) (when (within 48 57) (goto (st 33)) (goto st0))
      (when (gt 70) (when (within 97 102) (goto (st 33)) (goto st0)) (goto (st 33)))

abbrev pub case_33 : Switch Action
case_33 =
    when (lt 65) (when (within 48 57) (goto (st 31)) (goto st0))
      (when (gt 70) (when (within 97 102) (goto (st 31)) (goto st0)) (goto (st 31)))

abbrev pub case_34 : Switch Action
case_34 = when (eq 116) (goto (st 35)) (goto st0)

abbrev pub case_35 : Switch Action
case_35 = when (eq 116) (goto (st 36)) (goto st0)

abbrev pub case_36 : Switch Action
case_36 = when (eq 112) (goto (st 37)) (goto st0)

abbrev pub case_37 : Switch Action
case_37 = when (eq 58) (goto (st 38)) (goto st0)

abbrev pub case_38 : Switch Action
case_38 = when (eq 32) (goto tr9) (
    when (is (34 ∷ 60 ∷ 62 ∷ 127 ∷ [])) (goto st0) (
      when (eq 35) (goto tr10)
        (when (eq 37) (goto (st 39)) (when (within 0 31) (goto st0) (goto (st 38))))))

abbrev pub case_39 : Switch Action
case_39 =
    when (lt 65) (when (within 48 57) (goto (st 40)) (goto st0))
      (when (gt 70) (when (within 97 102) (goto (st 40)) (goto st0)) (goto (st 40)))

abbrev pub case_40 : Switch Action
case_40 =
    when (lt 65) (when (within 48 57) (goto (st 38)) (goto st0))
      (when (gt 70) (when (within 97 102) (goto (st 38)) (goto st0)) (goto (st 38)))

abbrev pub case_41 : Switch Action
case_41 = when (eq 32) (goto tr4) (
    when (is (36 ∷ 95 ∷ [])) (goto (st 42)) (
      when (lt 48) (when (within 45 46) (goto (st 42)) (goto st0))
        (when (gt 57) (when (within 65 90) (goto (st 42)) (goto st0)) (goto (st 42)))))

abbrev pub case_42 : Switch Action
case_42 = when (eq 32) (goto tr4) (
    when (is (36 ∷ 95 ∷ [])) (goto (st 43)) (
      when (lt 48) (when (within 45 46) (goto (st 43)) (goto st0))
        (when (gt 57) (when (within 65 90) (goto (st 43)) (goto st0)) (goto (st 43)))))

abbrev pub case_43 : Switch Action
case_43 = when (eq 32) (goto tr4) (
    when (is (36 ∷ 95 ∷ [])) (goto (st 44)) (
      when (lt 48) (when (within 45 46) (goto (st 44)) (goto st0))
        (when (gt 57) (when (within 65 90) (goto (st 44)) (goto st0)) (goto (st 44)))))

abbrev pub case_44 : Switch Action
case_44 = when (eq 32) (goto tr4) (
    when (is (36 ∷ 95 ∷ [])) (goto (st 45)) (
      when (lt 48) (when (within 45 46) (goto (st 45)) (goto st0))
        (when (gt 57) (when (within 65 90) (goto (st 45)) (goto st0)) (goto (st 45)))))

abbrev pub case_45 : Switch Action
case_45 = when (eq 32) (goto tr4) (
    when (is (36 ∷ 95 ∷ [])) (goto (st 46)) (
      when (lt 48) (when (within 45 46) (goto (st 46)) (goto st0))
        (when (gt 57) (when (within 65 90) (goto (st 46)) (goto st0)) (goto (st 46)))))

abbrev pub case_46 : Switch Action
case_46 = when (eq 32) (goto tr4) (
    when (is (36 ∷ 95 ∷ [])) (goto (st 47)) (
      when (lt 48) (when (within 45 46) (goto (st 47)) (goto st0))
        (when (gt 57) (when (within 65 90) (goto (st 47)) (goto st0)) (goto (st 47)))))

abbrev pub case_47 : Switch Action
case_47 = when (eq 32) (goto tr4) (
    when (is (36 ∷ 95 ∷ [])) (goto (st 48)) (
      when (lt 48) (when (within 45 46) (goto (st 48)) (goto st0))
        (when (gt 57) (when (within 65 90) (goto (st 48)) (goto st0)) (goto (st 48)))))

abbrev pub case_48 : Switch Action
case_48 = when (eq 32) (goto tr4) (
    when (is (36 ∷ 95 ∷ [])) (goto (st 49)) (
      when (lt 48) (when (within 45 46) (goto (st 49)) (goto st0))
        (when (gt 57) (when (within 65 90) (goto (st 49)) (goto st0)) (goto (st 49)))))

abbrev pub case_49 : Switch Action
case_49 = when (eq 32) (goto tr4) (
    when (is (36 ∷ 95 ∷ [])) (goto (st 50)) (
      when (lt 48) (when (within 45 46) (goto (st 50)) (goto st0))
        (when (gt 57) (when (within 65 90) (goto (st 50)) (goto st0)) (goto (st 50)))))

abbrev pub case_50 : Switch Action
case_50 = when (eq 32) (goto tr4) (
    when (is (36 ∷ 95 ∷ [])) (goto (st 51)) (
      when (lt 48) (when (within 45 46) (goto (st 51)) (goto st0))
        (when (gt 57) (when (within 65 90) (goto (st 51)) (goto st0)) (goto (st 51)))))

abbrev pub case_51 : Switch Action
case_51 = when (eq 32) (goto tr4) (
    when (is (36 ∷ 95 ∷ [])) (goto (st 52)) (
      when (lt 48) (when (within 45 46) (goto (st 52)) (goto st0))
        (when (gt 57) (when (within 65 90) (goto (st 52)) (goto st0)) (goto (st 52)))))

abbrev pub case_52 : Switch Action
case_52 = when (eq 32) (goto tr4) (
    when (is (36 ∷ 95 ∷ [])) (goto (st 53)) (
      when (lt 48) (when (within 45 46) (goto (st 53)) (goto st0))
        (when (gt 57) (when (within 65 90) (goto (st 53)) (goto st0)) (goto (st 53)))))

abbrev pub case_53 : Switch Action
case_53 = when (eq 32) (goto tr4) (
    when (is (36 ∷ 95 ∷ [])) (goto (st 54)) (
      when (lt 48) (when (within 45 46) (goto (st 54)) (goto st0))
        (when (gt 57) (when (within 65 90) (goto (st 54)) (goto st0)) (goto (st 54)))))

abbrev pub case_54 : Switch Action
case_54 = when (eq 32) (goto tr4) (
    when (is (36 ∷ 95 ∷ [])) (goto (st 55)) (
      when (lt 48) (when (within 45 46) (goto (st 55)) (goto st0))
        (when (gt 57) (when (within 65 90) (goto (st 55)) (goto st0)) (goto (st 55)))))

abbrev pub case_55 : Switch Action
case_55 = when (eq 32) (goto tr4) (
    when (is (36 ∷ 95 ∷ [])) (goto (st 56)) (
      when (lt 48) (when (within 45 46) (goto (st 56)) (goto st0))
        (when (gt 57) (when (within 65 90) (goto (st 56)) (goto st0)) (goto (st 56)))))

abbrev pub case_56 : Switch Action
case_56 = when (eq 32) (goto tr4) (
    when (is (36 ∷ 95 ∷ [])) (goto (st 57)) (
      when (lt 48) (when (within 45 46) (goto (st 57)) (goto st0))
        (when (gt 57) (when (within 65 90) (goto (st 57)) (goto st0)) (goto (st 57)))))

abbrev pub case_57 : Switch Action
case_57 = when (eq 32) (goto tr4) (
    when (is (36 ∷ 95 ∷ [])) (goto (st 58)) (
      when (lt 48) (when (within 45 46) (goto (st 58)) (goto st0))
        (when (gt 57) (when (within 65 90) (goto (st 58)) (goto st0)) (goto (st 58)))))

abbrev pub case_58 : Switch Action
case_58 = when (eq 32) (goto tr4) (
    when (is (36 ∷ 95 ∷ [])) (goto (st 59)) (
      when (lt 48) (when (within 45 46) (goto (st 59)) (goto st0))
        (when (gt 57) (when (within 65 90) (goto (st 59)) (goto st0)) (goto (st 59)))))

abbrev pub case_59 : Switch Action
case_59 = when (eq 32) (goto tr4) (goto st0)
