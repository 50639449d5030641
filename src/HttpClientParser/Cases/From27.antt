-- ===== src/HttpClientParser/Cases/From27.antt =====
-- `case 27` to `case 43` of src/http11/httpclient_parser.c.
use mongrel.Prelude.{[], ◌∷◌}
use mongrel.Ragel.{Switch, goto, when, st0, st, eq, ge, gt, is, lt, within}
use mongrel.HttpClientParser.{Action}
use mongrel.HttpClientParser.Labels.{
  tr35, tr36, tr37, tr39, tr40, tr61, tr62, tr63, tr64, tr65, tr67, tr69, tr70, tr71, tr72,
}

abbrev pub case_27 : Switch Action
case_27 = when (is (33 ∷ 124 ∷ 126 ∷ [])) (goto (st 21)) (
    when (eq 58) (goto tr39) (
      when (is (84 ∷ 116 ∷ [])) (goto (st 28)) (
        when (lt 45)
          (when (gt 39) (when (within 42 43) (goto (st 21)) (goto st0))
            (when (ge 35) (goto (st 21)) (goto st0)))
          (when (gt 46)
            (when (lt 65) (when (within 48 57) (goto (st 21)) (goto st0))
              (when (gt 90) (when (within 94 122) (goto (st 21)) (goto st0)) (goto (st 21))))
            (goto (st 21))))))

abbrev pub case_28 : Switch Action
case_28 = when (is (33 ∷ 124 ∷ 126 ∷ [])) (goto (st 21)) (
    when (eq 58) (goto tr39) (
      when (is (69 ∷ 101 ∷ [])) (goto (st 29)) (
        when (lt 45)
          (when (gt 39) (when (within 42 43) (goto (st 21)) (goto st0))
            (when (ge 35) (goto (st 21)) (goto st0)))
          (when (gt 46)
            (when (lt 65) (when (within 48 57) (goto (st 21)) (goto st0))
              (when (gt 90) (when (within 94 122) (goto (st 21)) (goto st0)) (goto (st 21))))
            (goto (st 21))))))

abbrev pub case_29 : Switch Action
case_29 = when (is (33 ∷ 124 ∷ 126 ∷ [])) (goto (st 21)) (
    when (eq 58) (goto tr39) (
      when (is (78 ∷ 110 ∷ [])) (goto (st 30)) (
        when (lt 45)
          (when (gt 39) (when (within 42 43) (goto (st 21)) (goto st0))
            (when (ge 35) (goto (st 21)) (goto st0)))
          (when (gt 46)
            (when (lt 65) (when (within 48 57) (goto (st 21)) (goto st0))
              (when (gt 90) (when (within 94 122) (goto (st 21)) (goto st0)) (goto (st 21))))
            (goto (st 21))))))

abbrev pub case_30 : Switch Action
case_30 = when (is (33 ∷ 124 ∷ 126 ∷ [])) (goto (st 21)) (
    when (eq 58) (goto tr39) (
      when (is (84 ∷ 116 ∷ [])) (goto (st 31)) (
        when (lt 45)
          (when (gt 39) (when (within 42 43) (goto (st 21)) (goto st0))
            (when (ge 35) (goto (st 21)) (goto st0)))
          (when (gt 46)
            (when (lt 65) (when (within 48 57) (goto (st 21)) (goto st0))
              (when (gt 90) (when (within 94 122) (goto (st 21)) (goto st0)) (goto (st 21))))
            (goto (st 21))))))

abbrev pub case_31 : Switch Action
case_31 = when (is (33 ∷ 46 ∷ 124 ∷ 126 ∷ [])) (goto (st 21)) (
    when (eq 45) (goto (st 32)) (
      when (eq 58) (goto tr39) (
        when (lt 48)
          (when (gt 39) (when (within 42 43) (goto (st 21)) (goto st0))
            (when (ge 35) (goto (st 21)) (goto st0)))
          (when (gt 57)
            (when (gt 90) (when (within 94 122) (goto (st 21)) (goto st0))
              (when (ge 65) (goto (st 21)) (goto st0)))
            (goto (st 21))))))

abbrev pub case_32 : Switch Action
case_32 = when (is (33 ∷ 124 ∷ 126 ∷ [])) (goto (st 21)) (
    when (eq 58) (goto tr39) (
      when (is (76 ∷ 108 ∷ [])) (goto (st 33)) (
        when (lt 45)
          (when (gt 39) (when (within 42 43) (goto (st 21)) (goto st0))
            (when (ge 35) (goto (st 21)) (goto st0)))
          (when (gt 46)
            (when (lt 65) (when (within 48 57) (goto (st 21)) (goto st0))
              (when (gt 90) (when (within 94 122) (goto (st 21)) (goto st0)) (goto (st 21))))
            (goto (st 21))))))

abbrev pub case_33 : Switch Action
case_33 = when (is (33 ∷ 124 ∷ 126 ∷ [])) (goto (st 21)) (
    when (eq 58) (goto tr39) (
      when (is (69 ∷ 101 ∷ [])) (goto (st 34)) (
        when (lt 45)
          (when (gt 39) (when (within 42 43) (goto (st 21)) (goto st0))
            (when (ge 35) (goto (st 21)) (goto st0)))
          (when (gt 46)
            (when (lt 65) (when (within 48 57) (goto (st 21)) (goto st0))
              (when (gt 90) (when (within 94 122) (goto (st 21)) (goto st0)) (goto (st 21))))
            (goto (st 21))))))

abbrev pub case_34 : Switch Action
case_34 = when (is (33 ∷ 124 ∷ 126 ∷ [])) (goto (st 21)) (
    when (eq 58) (goto tr39) (
      when (is (78 ∷ 110 ∷ [])) (goto (st 35)) (
        when (lt 45)
          (when (gt 39) (when (within 42 43) (goto (st 21)) (goto st0))
            (when (ge 35) (goto (st 21)) (goto st0)))
          (when (gt 46)
            (when (lt 65) (when (within 48 57) (goto (st 21)) (goto st0))
              (when (gt 90) (when (within 94 122) (goto (st 21)) (goto st0)) (goto (st 21))))
            (goto (st 21))))))

abbrev pub case_35 : Switch Action
case_35 = when (is (33 ∷ 124 ∷ 126 ∷ [])) (goto (st 21)) (
    when (eq 58) (goto tr39) (
      when (is (71 ∷ 103 ∷ [])) (goto (st 36)) (
        when (lt 45)
          (when (gt 39) (when (within 42 43) (goto (st 21)) (goto st0))
            (when (ge 35) (goto (st 21)) (goto st0)))
          (when (gt 46)
            (when (lt 65) (when (within 48 57) (goto (st 21)) (goto st0))
              (when (gt 90) (when (within 94 122) (goto (st 21)) (goto st0)) (goto (st 21))))
            (goto (st 21))))))

abbrev pub case_36 : Switch Action
case_36 = when (is (33 ∷ 124 ∷ 126 ∷ [])) (goto (st 21)) (
    when (eq 58) (goto tr39) (
      when (is (84 ∷ 116 ∷ [])) (goto (st 37)) (
        when (lt 45)
          (when (gt 39) (when (within 42 43) (goto (st 21)) (goto st0))
            (when (ge 35) (goto (st 21)) (goto st0)))
          (when (gt 46)
            (when (lt 65) (when (within 48 57) (goto (st 21)) (goto st0))
              (when (gt 90) (when (within 94 122) (goto (st 21)) (goto st0)) (goto (st 21))))
            (goto (st 21))))))

abbrev pub case_37 : Switch Action
case_37 = when (is (33 ∷ 124 ∷ 126 ∷ [])) (goto (st 21)) (
    when (eq 58) (goto tr39) (
      when (is (72 ∷ 104 ∷ [])) (goto (st 38)) (
        when (lt 45)
          (when (gt 39) (when (within 42 43) (goto (st 21)) (goto st0))
            (when (ge 35) (goto (st 21)) (goto st0)))
          (when (gt 46)
            (when (lt 65) (when (within 48 57) (goto (st 21)) (goto st0))
              (when (gt 90) (when (within 94 122) (goto (st 21)) (goto st0)) (goto (st 21))))
            (goto (st 21))))))

abbrev pub case_38 : Switch Action
case_38 = when (is (33 ∷ 124 ∷ 126 ∷ [])) (goto (st 21)) (
    when (eq 58) (goto tr61) (
      when (lt 45)
        (when (gt 39) (when (within 42 43) (goto (st 21)) (goto st0))
          (when (ge 35) (goto (st 21)) (goto st0)))
        (when (gt 46)
          (when (lt 65) (when (within 48 57) (goto (st 21)) (goto st0))
            (when (gt 90) (when (within 94 122) (goto (st 21)) (goto st0)) (goto (st 21))))
          (goto (st 21)))))

abbrev pub case_39 : Switch Action
case_39 = when (eq 10) (goto tr63) (
    when (eq 13) (goto tr64) (
      when (eq 32) (goto tr62) (
        when (gt 12) (when (within 48 57) (goto tr65) (goto tr40))
          (when (ge 9) (goto tr62) (goto tr40)))))

abbrev pub case_40 : Switch Action
case_40 = when (eq 10) (goto tr67) (
    when (eq 13) (goto (st 43)) (
      when (eq 32) (goto (st 41)) (
        when (is (33 ∷ 124 ∷ 126 ∷ [])) (goto tr35) (
          when (is (67 ∷ 99 ∷ [])) (goto tr36) (
            when (is (84 ∷ 116 ∷ [])) (goto tr37) (
              when (lt 45)
                (when (lt 35) (when (within 9 12) (goto (st 41)) (goto st0))
                  (when (gt 39) (when (within 42 43) (goto tr35) (goto st0)) (goto tr35)))
                (when (gt 46)
                  (when (lt 65) (when (within 48 57) (goto tr69) (goto st0))
                    (when (gt 90) (when (within 94 122) (goto tr35) (goto st0)) (goto tr35)))
                  (goto tr35))))))))

abbrev pub case_41 : Switch Action
case_41 = when (eq 32) (goto (st 41)) (
    when (gt 13) (when (within 48 57) (goto tr70) (goto st0))
      (when (ge 9) (goto (st 41)) (goto st0)))

abbrev pub case_42 : Switch Action
case_42 =
    when (eq 10) (goto tr71)
      (when (eq 13) (goto tr72) (when (within 48 57) (goto (st 42)) (goto st0)))

abbrev pub case_43 : Switch Action
case_43 = when (eq 10) (goto tr67) (
    when (eq 32) (goto (st 41)) (
      when (gt 13) (when (within 48 57) (goto tr70) (goto st0))
        (when (ge 9) (goto (st 41)) (goto st0))))
