-- ===== src/HttpParser/Cases/From60.antt =====
-- `case 60` to `case 96` of src/http11/http11_parser.c.
use mongrel.Prelude.{[], ◌∷◌}
use mongrel.Ragel.{Switch, goto, when, st0, st, eq, ge, gt, is, lt, within}
use mongrel.HttpParser.{Action}
use mongrel.HttpParser.Labels.{tr106, tr108, tr110, tr111, tr113, tr119, tr120, tr121, tr123}

abbrev pub case_60 : Switch Action
case_60 = when (eq 112) (goto (st 61)) (goto st0)

abbrev pub case_61 : Switch Action
case_61 = when (eq 111) (goto (st 62)) (goto st0)

abbrev pub case_62 : Switch Action
case_62 = when (eq 108) (goto (st 63)) (goto st0)

abbrev pub case_63 : Switch Action
case_63 = when (eq 105) (goto (st 64)) (goto st0)

abbrev pub case_64 : Switch Action
case_64 = when (eq 99) (goto (st 65)) (goto st0)

abbrev pub case_65 : Switch Action
case_65 = when (eq 121) (goto (st 66)) (goto st0)

abbrev pub case_66 : Switch Action
case_66 = when (eq 45) (goto (st 67)) (goto st0)

abbrev pub case_67 : Switch Action
case_67 = when (eq 102) (goto (st 68)) (goto st0)

abbrev pub case_68 : Switch Action
case_68 = when (eq 105) (goto (st 69)) (goto st0)

abbrev pub case_69 : Switch Action
case_69 = when (eq 108) (goto (st 70)) (goto st0)

abbrev pub case_70 : Switch Action
case_70 = when (eq 101) (goto (st 71)) (goto st0)

abbrev pub case_71 : Switch Action
case_71 = when (eq 45) (goto (st 72)) (goto st0)

abbrev pub case_72 : Switch Action
case_72 = when (eq 114) (goto (st 73)) (goto st0)

abbrev pub case_73 : Switch Action
case_73 = when (eq 101) (goto (st 74)) (goto st0)

abbrev pub case_74 : Switch Action
case_74 = when (eq 113) (goto (st 75)) (goto st0)

abbrev pub case_75 : Switch Action
case_75 = when (eq 117) (goto (st 76)) (goto st0)

abbrev pub case_76 : Switch Action
case_76 = when (eq 101) (goto (st 77)) (goto st0)

abbrev pub case_77 : Switch Action
case_77 = when (eq 115) (goto (st 78)) (goto st0)

abbrev pub case_78 : Switch Action
case_78 = when (eq 116) (goto (st 79)) (goto st0)

abbrev pub case_79 : Switch Action
case_79 = when (eq 47) (goto (st 80)) (goto st0)

abbrev pub case_80 : Switch Action
case_80 = when (eq 62) (goto (st 81)) (goto st0)

abbrev pub case_81 : Switch Action
case_81 = when (eq 0) (goto tr106) (goto st0)

abbrev pub case_82 : Switch Action
case_82 = when (eq 32) (goto tr108) (
    when (eq 37) (goto (st 86)) (
      when (is (47 ∷ 60 ∷ 62 ∷ 127 ∷ [])) (goto st0) (
        when (eq 59) (goto tr110) (
          when (eq 63) (goto tr111) (
            when (gt 31) (when (within 34 35) (goto st0) (goto (st 83)))
              (when (ge 0) (goto st0) (goto (st 83))))))))

abbrev pub case_83 : Switch Action
case_83 = when (eq 32) (goto tr108) (
    when (eq 37) (goto (st 86)) (
      when (eq 59) (goto tr110) (
        when (is (60 ∷ 62 ∷ 127 ∷ [])) (goto st0) (
          when (eq 63) (goto tr111) (
            when (gt 31) (when (within 34 35) (goto st0) (goto (st 83)))
              (when (ge 0) (goto st0) (goto (st 83))))))))

abbrev pub case_84 : Switch Action
case_84 = when (eq 123) (goto (st 85)) (goto st0)

abbrev pub case_85 : Switch Action
case_85 = when (eq 0) (goto tr113) (goto (st 85))

abbrev pub case_86 : Switch Action
case_86 =
    when (lt 65) (when (within 48 57) (goto (st 87)) (goto st0))
      (when (gt 70) (when (within 97 102) (goto (st 87)) (goto st0)) (goto (st 87)))

abbrev pub case_87 : Switch Action
case_87 =
    when (lt 65) (when (within 48 57) (goto (st 83)) (goto st0))
      (when (gt 70) (when (within 97 102) (goto (st 83)) (goto st0)) (goto (st 83)))

abbrev pub case_88 : Switch Action
case_88 = when (eq 32) (goto tr108) (
    when (eq 37) (goto (st 89)) (
      when (is (60 ∷ 62 ∷ 127 ∷ [])) (goto st0) (
        when (eq 63) (goto (st 91)) (
          when (gt 31) (when (within 34 35) (goto st0) (goto (st 88)))
            (when (ge 0) (goto st0) (goto (st 88)))))))

abbrev pub case_89 : Switch Action
case_89 =
    when (lt 65) (when (within 48 57) (goto (st 90)) (goto st0))
      (when (gt 70) (when (within 97 102) (goto (st 90)) (goto st0)) (goto (st 90)))

abbrev pub case_90 : Switch Action
case_90 =
    when (lt 65) (when (within 48 57) (goto (st 88)) (goto st0))
      (when (gt 70) (when (within 97 102) (goto (st 88)) (goto st0)) (goto (st 88)))

abbrev pub case_91 : Switch Action
case_91 = when (eq 32) (goto tr120) (
    when (eq 37) (goto tr121) (
      when (is (60 ∷ 62 ∷ 127 ∷ [])) (goto st0) (
        when (gt 31) (when (within 34 35) (goto st0) (goto tr119))
          (when (ge 0) (goto st0) (goto tr119)))))

abbrev pub case_92 : Switch Action
case_92 = when (eq 32) (goto tr123) (
    when (eq 37) (goto (st 93)) (
      when (is (60 ∷ 62 ∷ 127 ∷ [])) (goto st0) (
        when (gt 31) (when (within 34 35) (goto st0) (goto (st 92)))
          (when (ge 0) (goto st0) (goto (st 92))))))

abbrev pub case_93 : Switch Action
case_93 =
    when (lt 65) (when (within 48 57) (goto (st 94)) (goto st0))
      (when (gt 70) (when (within 97 102) (goto (st 94)) (goto st0)) (goto (st 94)))

abbrev pub case_94 : Switch Action
case_94 =
    when (lt 65) (when (within 48 57) (goto (st 92)) (goto st0))
      (when (gt 70) (when (within 97 102) (goto (st 92)) (goto st0)) (goto (st 92)))

abbrev pub case_95 : Switch Action
case_95 = goto st0

abbrev pub case_96 : Switch Action
case_96 = when (eq 0) (goto tr113) (goto (st 85))
