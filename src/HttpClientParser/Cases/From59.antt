-- ===== src/HttpClientParser/Cases/From59.antt =====
-- `case 59` to `case 79` of src/http11/httpclient_parser.c.
use mongrel.Prelude.{[], ◌∷◌}
use mongrel.Ragel.{Switch, goto, when, st0, st, eq, ge, gt, is, lt, within}
use mongrel.HttpClientParser.{Action}
use mongrel.HttpClientParser.Labels.{
  tr35, tr37, tr39, tr40, tr91, tr92, tr93, tr94, tr95, tr97, tr99, tr100, tr107, tr108, tr109,
}

abbrev pub case_59 : Switch Action
case_59 = when (is (33 ∷ 124 ∷ 126 ∷ [])) (goto (st 21)) (
    when (eq 58) (goto tr39) (
      when (is (78 ∷ 110 ∷ [])) (goto (st 60)) (
        when (lt 45)
          (when (gt 39) (when (within 42 43) (goto (st 21)) (goto st0))
            (when (ge 35) (goto (st 21)) (goto st0)))
          (when (gt 46)
            (when (lt 65) (when (within 48 57) (goto (st 21)) (goto st0))
              (when (gt 90) (when (within 94 122) (goto (st 21)) (goto st0)) (goto (st 21))))
            (goto (st 21))))))

abbrev pub case_60 : Switch Action
case_60 = when (is (33 ∷ 124 ∷ 126 ∷ [])) (goto (st 21)) (
    when (eq 58) (goto tr39) (
      when (is (71 ∷ 103 ∷ [])) (goto (st 61)) (
        when (lt 45)
          (when (gt 39) (when (within 42 43) (goto (st 21)) (goto st0))
            (when (ge 35) (goto (st 21)) (goto st0)))
          (when (gt 46)
            (when (lt 65) (when (within 48 57) (goto (st 21)) (goto st0))
              (when (gt 90) (when (within 94 122) (goto (st 21)) (goto st0)) (goto (st 21))))
            (goto (st 21))))))

abbrev pub case_61 : Switch Action
case_61 = when (is (33 ∷ 124 ∷ 126 ∷ [])) (goto (st 21)) (
    when (eq 58) (goto tr91) (
      when (lt 45)
        (when (gt 39) (when (within 42 43) (goto (st 21)) (goto st0))
          (when (ge 35) (goto (st 21)) (goto st0)))
        (when (gt 46)
          (when (lt 65) (when (within 48 57) (goto (st 21)) (goto st0))
            (when (gt 90) (when (within 94 122) (goto (st 21)) (goto st0)) (goto (st 21))))
          (goto (st 21)))))

abbrev pub case_62 : Switch Action
case_62 = when (eq 10) (goto tr93) (
    when (eq 13) (goto tr94) (
      when (eq 32) (goto tr92)
        (when (is (67 ∷ 99 ∷ [])) (goto tr95) (when (within 9 12) (goto tr92) (goto tr40)))))

abbrev pub case_63 : Switch Action
case_63 = when (eq 10) (goto tr97) (
    when (eq 13) (goto (st 73)) (
      when (eq 32) (goto (st 64)) (
        when (is (33 ∷ 124 ∷ 126 ∷ [])) (goto tr35) (
          when (is (67 ∷ 99 ∷ [])) (goto tr99) (
            when (is (84 ∷ 116 ∷ [])) (goto tr37) (
              when (lt 45)
                (when (lt 35) (when (within 9 12) (goto (st 64)) (goto st0))
                  (when (gt 39) (when (within 42 43) (goto tr35) (goto st0)) (goto tr35)))
                (when (gt 46)
                  (when (lt 65) (when (within 48 57) (goto tr35) (goto st0))
                    (when (gt 90) (when (within 94 122) (goto tr35) (goto st0)) (goto tr35)))
                  (goto tr35))))))))

abbrev pub case_64 : Switch Action
case_64 =
    when (eq 32) (goto (st 64))
      (when (is (67 ∷ 99 ∷ [])) (goto tr100) (when (within 9 13) (goto (st 64)) (goto st0)))

abbrev pub case_65 : Switch Action
case_65 = when (is (72 ∷ 104 ∷ [])) (goto (st 66)) (goto st0)

abbrev pub case_66 : Switch Action
case_66 = when (is (85 ∷ 117 ∷ [])) (goto (st 67)) (goto st0)

abbrev pub case_67 : Switch Action
case_67 = when (is (78 ∷ 110 ∷ [])) (goto (st 68)) (goto st0)

abbrev pub case_68 : Switch Action
case_68 = when (is (75 ∷ 107 ∷ [])) (goto (st 69)) (goto st0)

abbrev pub case_69 : Switch Action
case_69 = when (is (69 ∷ 101 ∷ [])) (goto (st 70)) (goto st0)

abbrev pub case_70 : Switch Action
case_70 = when (is (68 ∷ 100 ∷ [])) (goto (st 71)) (goto st0)

abbrev pub case_71 : Switch Action
case_71 = when (eq 10) (goto tr107) (when (eq 13) (goto tr108) (goto st0))

abbrev pub case_72 : Switch Action
case_72 = when (eq 10) (goto tr109) (goto st0)

abbrev pub case_73 : Switch Action
case_73 = when (eq 10) (goto tr97) (
    when (eq 32) (goto (st 64))
      (when (is (67 ∷ 99 ∷ [])) (goto tr100) (when (within 9 13) (goto (st 64)) (goto st0))))

abbrev pub case_74 : Switch Action
case_74 = when (is (33 ∷ 124 ∷ 126 ∷ [])) (goto (st 21)) (
    when (eq 58) (goto tr39) (
      when (is (72 ∷ 104 ∷ [])) (goto (st 75)) (
        when (is (79 ∷ 111 ∷ [])) (goto (st 26)) (
          when (lt 45)
            (when (gt 39) (when (within 42 43) (goto (st 21)) (goto st0))
              (when (ge 35) (goto (st 21)) (goto st0)))
            (when (gt 46)
              (when (lt 65) (when (within 48 57) (goto (st 21)) (goto st0))
                (when (gt 90) (when (within 94 122) (goto (st 21)) (goto st0)) (goto (st 21))))
              (goto (st 21)))))))

abbrev pub case_75 : Switch Action
case_75 = when (is (33 ∷ 124 ∷ 126 ∷ [])) (goto (st 21)) (
    when (eq 58) (goto tr39) (
      when (is (85 ∷ 117 ∷ [])) (goto (st 76)) (
        when (lt 45)
          (when (gt 39) (when (within 42 43) (goto (st 21)) (goto st0))
            (when (ge 35) (goto (st 21)) (goto st0)))
          (when (gt 46)
            (when (lt 65) (when (within 48 57) (goto (st 21)) (goto st0))
              (when (gt 90) (when (within 94 122) (goto (st 21)) (goto st0)) (goto (st 21))))
            (goto (st 21))))))

abbrev pub case_76 : Switch Action
case_76 = when (is (33 ∷ 124 ∷ 126 ∷ [])) (goto (st 21)) (
    when (eq 58) (goto tr39) (
      when (is (78 ∷ 110 ∷ [])) (goto (st 77)) (
        when (lt 45)
          (when (gt 39) (when (within 42 43) (goto (st 21)) (goto st0))
            (when (ge 35) (goto (st 21)) (goto st0)))
          (when (gt 46)
            (when (lt 65) (when (within 48 57) (goto (st 21)) (goto st0))
              (when (gt 90) (when (within 94 122) (goto (st 21)) (goto st0)) (goto (st 21))))
            (goto (st 21))))))

abbrev pub case_77 : Switch Action
case_77 = when (is (33 ∷ 124 ∷ 126 ∷ [])) (goto (st 21)) (
    when (eq 58) (goto tr39) (
      when (is (75 ∷ 107 ∷ [])) (goto (st 78)) (
        when (lt 45)
          (when (gt 39) (when (within 42 43) (goto (st 21)) (goto st0))
            (when (ge 35) (goto (st 21)) (goto st0)))
          (when (gt 46)
            (when (lt 65) (when (within 48 57) (goto (st 21)) (goto st0))
              (when (gt 90) (when (within 94 122) (goto (st 21)) (goto st0)) (goto (st 21))))
            (goto (st 21))))))

abbrev pub case_78 : Switch Action
case_78 = when (is (33 ∷ 124 ∷ 126 ∷ [])) (goto (st 21)) (
    when (eq 58) (goto tr39) (
      when (is (69 ∷ 101 ∷ [])) (goto (st 79)) (
        when (lt 45)
          (when (gt 39) (when (within 42 43) (goto (st 21)) (goto st0))
            (when (ge 35) (goto (st 21)) (goto st0)))
          (when (gt 46)
            (when (lt 65) (when (within 48 57) (goto (st 21)) (goto st0))
              (when (gt 90) (when (within 94 122) (goto (st 21)) (goto st0)) (goto (st 21))))
            (goto (st 21))))))

abbrev pub case_79 : Switch Action
case_79 = when (is (33 ∷ 124 ∷ 126 ∷ [])) (goto (st 21)) (
    when (eq 58) (goto tr39) (
      when (is (68 ∷ 100 ∷ [])) (goto (st 80)) (
        when (lt 45)
          (when (gt 39) (when (within 42 43) (goto (st 21)) (goto st0))
            (when (ge 35) (goto (st 21)) (goto st0)))
          (when (gt 46)
            (when (lt 65) (when (within 48 57) (goto (st 21)) (goto st0))
              (when (gt 90) (when (within 94 122) (goto (st 21)) (goto st0)) (goto (st 21))))
            (goto (st 21))))))
