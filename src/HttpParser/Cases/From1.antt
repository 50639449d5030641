-- ===== src/HttpParser/Cases/From1.antt =====
-- `case 1` to `case 31` of src/http11/http11_parser.c.
use mongrel.Prelude.{[], ◌∷◌}
use mongrel.Ragel.{Switch, goto, when, st0, st, eq, ge, gt, is, lt, within}
use mongrel.HttpParser.{Action}
use mongrel.HttpParser.Labels.{
  tr0, tr3, tr4, tr6, tr7, tr8, tr9, tr10, tr11, tr19, tr20, tr21, tr23, tr25, tr26, tr27, tr28,
  tr29, tr31, tr32, tr34, tr35, tr36, tr38, tr42, tr43, tr45, tr46, tr52, tr53, tr54, tr55, tr57,
  tr58,
}

abbrev pub case_1 : Switch Action
case_1 = when (is (36 ∷ 95 ∷ [])) (goto tr0) (
    when (eq 60) (goto (st 60)) (
      when (eq 64) (goto tr3) (
        when (lt 48) (when (within 45 46) (goto tr0) (goto st0))
          (when (gt 57) (when (within 65 90) (goto tr0) (goto st0)) (goto tr0)))))

abbrev pub case_2 : Switch Action
case_2 = when (eq 32) (goto tr4) (
    when (is (36 ∷ 95 ∷ [])) (goto (st 41)) (
      when (lt 48) (when (within 45 46) (goto (st 41)) (goto st0))
        (when (gt 57) (when (within 65 90) (goto (st 41)) (goto st0)) (goto (st 41)))))

abbrev pub case_3 : Switch Action
case_3 = when (eq 42) (goto tr6) (when (eq 47) (goto tr7) (when (eq 104) (goto tr8) (goto st0)))

abbrev pub case_4 : Switch Action
case_4 = when (eq 32) (goto tr9) (when (eq 35) (goto tr10) (goto st0))

abbrev pub case_5 : Switch Action
case_5 = when (eq 72) (goto tr11) (goto st0)

abbrev pub case_6 : Switch Action
case_6 = when (eq 84) (goto (st 7)) (goto st0)

abbrev pub case_7 : Switch Action
case_7 = when (eq 84) (goto (st 8)) (goto st0)

abbrev pub case_8 : Switch Action
case_8 = when (eq 80) (goto (st 9)) (goto st0)

abbrev pub case_9 : Switch Action
case_9 = when (eq 47) (goto (st 10)) (goto st0)

abbrev pub case_10 : Switch Action
case_10 = when (eq 49) (goto (st 11)) (goto st0)

abbrev pub case_11 : Switch Action
case_11 = when (eq 46) (goto (st 12)) (goto st0)

abbrev pub case_12 : Switch Action
case_12 = when (within 48 49) (goto (st 13)) (goto st0)

abbrev pub case_13 : Switch Action
case_13 = when (eq 10) (goto tr19) (when (eq 13) (goto tr20) (goto st0))

abbrev pub case_14 : Switch Action
case_14 = when (eq 10) (goto tr21) (
    when (eq 13) (goto (st 15)) (
      when (is (33 ∷ 124 ∷ 126 ∷ [])) (goto tr23) (
        when (lt 45)
          (when (gt 39) (when (within 42 43) (goto tr23) (goto st0))
            (when (ge 35) (goto tr23) (goto st0)))
          (when (gt 46)
            (when (lt 65) (when (within 48 57) (goto tr23) (goto st0))
              (when (gt 90) (when (within 94 122) (goto tr23) (goto st0)) (goto tr23)))
            (goto tr23)))))

abbrev pub case_15 : Switch Action
case_15 = when (eq 10) (goto tr21) (goto st0)

abbrev pub case_16 : Switch Action
case_16 = when (is (33 ∷ 124 ∷ 126 ∷ [])) (goto (st 16)) (
    when (eq 58) (goto tr25) (
      when (lt 45)
        (when (gt 39) (when (within 42 43) (goto (st 16)) (goto st0))
          (when (ge 35) (goto (st 16)) (goto st0)))
        (when (gt 46)
          (when (lt 65) (when (within 48 57) (goto (st 16)) (goto st0))
            (when (gt 90) (when (within 94 122) (goto (st 16)) (goto st0)) (goto (st 16))))
          (goto (st 16)))))

abbrev pub case_17 : Switch Action
case_17 = when (eq 10) (goto tr27) (when (eq 13) (goto tr28) (when (eq 32) (goto tr29) (goto tr26)))

abbrev pub case_18 : Switch Action
case_18 = when (eq 10) (goto tr31) (when (eq 13) (goto tr32) (goto (st 18)))

abbrev pub case_19 : Switch Action
case_19 = when (eq 10) (goto (st 14)) (goto st0)

abbrev pub case_20 : Switch Action
case_20 = when (eq 32) (goto tr35) (
    when (eq 37) (goto tr36) (
      when (is (60 ∷ 62 ∷ 127 ∷ [])) (goto st0) (
        when (gt 31) (when (within 34 35) (goto st0) (goto tr34))
          (when (ge 0) (goto st0) (goto tr34)))))

abbrev pub case_21 : Switch Action
case_21 = when (eq 32) (goto tr38) (
    when (eq 37) (goto (st 22)) (
      when (is (60 ∷ 62 ∷ 127 ∷ [])) (goto st0) (
        when (gt 31) (when (within 34 35) (goto st0) (goto (st 21)))
          (when (ge 0) (goto st0) (goto (st 21))))))

abbrev pub case_22 : Switch Action
case_22 =
    when (lt 65) (when (within 48 57) (goto (st 23)) (goto st0))
      (when (gt 70) (when (within 97 102) (goto (st 23)) (goto st0)) (goto (st 23)))

abbrev pub case_23 : Switch Action
case_23 =
    when (lt 65) (when (within 48 57) (goto (st 21)) (goto st0))
      (when (gt 70) (when (within 97 102) (goto (st 21)) (goto st0)) (goto (st 21)))

abbrev pub case_24 : Switch Action
case_24 = when (eq 32) (goto tr42) (
    when (is (34 ∷ 60 ∷ 62 ∷ 127 ∷ [])) (goto st0) (
      when (eq 35) (goto tr43) (
        when (eq 37) (goto (st 25)) (
          when (eq 59) (goto tr45)
            (when (eq 63) (goto tr46) (when (within 0 31) (goto st0) (goto (st 24))))))))

abbrev pub case_25 : Switch Action
case_25 =
    when (lt 65) (when (within 48 57) (goto (st 26)) (goto st0))
      (when (gt 70) (when (within 97 102) (goto (st 26)) (goto st0)) (goto (st 26)))

abbrev pub case_26 : Switch Action
case_26 =
    when (lt 65) (when (within 48 57) (goto (st 24)) (goto st0))
      (when (gt 70) (when (within 97 102) (goto (st 24)) (goto st0)) (goto (st 24)))

abbrev pub case_27 : Switch Action
case_27 = when (eq 32) (goto tr9) (
    when (is (34 ∷ 60 ∷ 62 ∷ 127 ∷ [])) (goto st0) (
      when (eq 35) (goto tr10) (
        when (eq 37) (goto (st 28))
          (when (eq 63) (goto (st 30)) (when (within 0 31) (goto st0) (goto (st 27)))))))

abbrev pub case_28 : Switch Action
case_28 =
    when (lt 65) (when (within 48 57) (goto (st 29)) (goto st0))
      (when (gt 70) (when (within 97 102) (goto (st 29)) (goto st0)) (goto (st 29)))

abbrev pub case_29 : Switch Action
case_29 =
    when (lt 65) (when (within 48 57) (goto (st 27)) (goto st0))
      (when (gt 70) (when (within 97 102) (goto (st 27)) (goto st0)) (goto (st 27)))

abbrev pub case_30 : Switch Action
case_30 = when (eq 32) (goto tr53) (
    when (is (34 ∷ 60 ∷ 62 ∷ 127 ∷ [])) (goto st0) (
      when (eq 35) (goto tr54)
        (when (eq 37) (goto tr55) (when (within 0 31) (goto st0) (goto tr52)))))

abbrev pub case_31 : Switch Action
case_31 = when (eq 32) (goto tr57) (
    when (is (34 ∷ 60 ∷ 62 ∷ 127 ∷ [])) (goto st0) (
      when (eq 35) (goto tr58)
        (when (eq 37) (goto (st 32)) (when (within 0 31) (goto st0) (goto (st 31))))))
