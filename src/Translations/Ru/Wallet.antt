-- ===== src/Translations/Ru/Wallet.antt =====
-- The Russian texts of the views of the wallet, lines 621 to 717 of frontend/src/i18n/translations.ts.
use lokinode.Translations.Table.{Table}
use mathlib.Core.List.{[], ◌∷◌}

unfoldable pub texts : Table
texts =
    ("send.total_cost", "Итого")
    ∷ ("send.confirm_send", "Подтвердить и отправить")
    ∷ ("send.recipient", "Адрес получателя")
    ∷ ("send.amount", "Сумма (FLC)")
    ∷ ("send.available", "Доступно: {{amount}} FLC")
    ∷ ("send.fee_speed", "Скорость комиссии")
    ∷ ("send.economy", "Эконом")
    ∷ ("send.standard", "Стандарт")
    ∷ ("send.fast", "Быстро")
    ∷ ("send.next", "Далее")
    ∷ ("send.back", "Назад")
    ∷ ("send.review", "Проверить")
    ∷ ("send.estimating", "Оценка…")
    ∷ ("send.confirm_title", "Подтверждение транзакции")
    ∷ ("send.to", "Кому")
    ∷ ("send.amount_label", "Сумма")
    ∷ ("send.fee_rate", "Комиссия")
    ∷ ("send.est_fee", "Ожид. комиссия")
    ∷ ("send.balance_after", "Остаток после")
    ∷ ("send.coins", "Отправить")
    ∷ ("send.sending", "Отправка…")
    ∷ ("send.success", "Отправлено!")
    ∷ ("send.errors.address", "Адрес обязателен")
    ∷ ("send.errors.amount", "Неверная сумма")
    ∷ ("send.errors.fee", "Не удалось оценить комиссию")
    ∷ ("send.errors.failed", "Ошибка отправки")
    ∷ ("send.address_ph", "flc1q…")
    ∷ ("send.address_first", "Сначала введите адрес получателя")
    ∷ ("send.amount_ph", "0.00000000")
    ∷ ("send.review_title", "Проверка транзакции")
    ∷ ("send.sending_label", "Отправка")
    ∷ ("send.network_fee", "Комиссия сети")
    ∷ ("send.arrival_est", "Ожид. прибытие: ~{{time}} мин")
    ∷ ("send.calculating", "Вычисление…")
    ∷ ("send.errors.exceeds_balance", "Сумма превышает баланс")
    ∷ ("send.errors.leave_fee_room", "Сумма слишком велика — учтите комиссию (~{{fee}} FLC)")
    ∷ ("history.empty", "Транзакций пока нет")
    ∷ ("history.load_more", "Загрузить ещё ({{count}})")
    ∷ ("history.unconfirmed", "Не подтверждено")
    ∷ ("history.conf", "{{count}} подтв.")
    ∷ ("about.version", "Версия")
    ∷ ("about.latest", "Последняя")
    ∷ ("about.latest_badge", "актуальная")
    ∷ ("about.download", "Загрузить обновление")
    ∷ ("about.github", "Открыть на GitHub")
    ∷ ("update.title", "Доступно обновление")
    ∷ ("update.body", "Версия {{version}} содержит улучшения безопасности и исправления.")
    ∷ ("update.later", "Позже")
    ∷ ("update.now", "Обновить")
    ∷ ("wallet.setup.title", "Настройка кошелька")
    ∷ ("wallet.setup.new", "Новый кошелёк")
    ∷ ("wallet.setup.mnemonic", "Мнемоника")
    ∷ ("wallet.setup.private", "Закрытый ключ")
    ∷ ("wallet.pwd.title", "Установите пароль кошелька")
    ∷ ("wallet.pwd.label", "Пароль кошелька")
    ∷ ("wallet.pwd.confirm", "Подтвердите пароль")
    ∷ ("wallet.pwd.repeat_ph", "Повторите пароль")
    ∷ ("wallet.new.title", "Дополнительная защита")
    ∷ ("wallet.new.optional", "(необязательно)")
    ∷ ("wallet.new.seed_pwd", "Пароль сида")
    ∷ ("wallet.new.seed_pwd_ph", "Необязательно — оставьте пустым")
    ∷ ("wallet.new.confirm_pwd", "Подтвердить пароль")
    ∷ ("wallet.new.confirm_pwd_ph", "Повторите пароль")
    ∷ ("wallet.new.generate", "Создать кошелёк")
    ∷ ("wallet.new.recovery_title", "Фраза восстановления")
    ∷ (
      "wallet.new.recovery_desc",
      "Запишите эти 24 слова. Это единственный способ восстановить кошелёк.",
    )
    ∷ ("wallet.new.saved_btn", "Я сохранил фразу")
    ∷ ("wallet.new.mismatch", "Пароли не совпадают")
    ∷ ("wallet.new.error", "Ошибка кошелька")
    ∷ ("wallet.import.recovery", "Фраза восстановления")
    ∷ ("wallet.import.recovery_ph", "Введите 24 слова через пробел")
    ∷ ("wallet.import.seed_pwd", "Пароль сида (необязательно)")
    ∷ ("wallet.import.seed_pwd_ph", "Необязательно — оставьте пустым")
    ∷ ("wallet.import.restore", "Восстановить кошелёк")
    ∷ ("wallet.import.error_24words", "Необходимо ровно 24 слова")
    ∷ ("wallet.import.error", "Ошибка импорта")
    ∷ ("wallet.private.label", "Приватный ключ")
    ∷ ("wallet.private.ph", "e9860a33a39e80c427382d619946808f5d75571694f6c4d7e9f3b5c777d0a7a3")
    ∷ ("wallet.errors.key_required", "Требуется закрытый ключ")
    ∷ ("wallet.mnemonic.notice", "Важное уведомление о безопасности")
    ∷ (
      "wallet.mnemonic.ensure",
      "Пожалуйста, убедитесь, что вы надежно сохранили свою мнемоническую фразу.",
    )
    ∷ ("wallet.mnemonic.point1", "Это ваш ЕДИНСТВЕННЫЙ шанс сохранить эти слова")
    ∷ (
      "wallet.mnemonic.point2",
      "Без этой резервной копии вы не сможете восстановить кошелёк в случае утери",
    )
    ∷ (
      "wallet.mnemonic.point3",
      "Храните эту копию в безопасном месте, никогда не делитесь ею ни с кем",
    )
    ∷ ("wallet.mnemonic.footer", "После подтверждения вы больше не увидите эти слова")
    ∷ ("wallet.mnemonic.back", "Вернуться")
    ∷ ("wallet.mnemonic.confirm", "Я сохранил свою мнемонику")
    ∷ ("common.info", "Информация")
    ∷ ("common.close", "Закрыть")
    ∷ ("common.apply", "Применить")
    ∷ ("common.save", "Сохранить")
    ∷ ("common.copy", "Копировать")
    ∷ ("common.copied", "Скопировано")
    ∷ ("common.processing", "Обработка…")
    ∷ ("common.error", "Ошибка")
    ∷ ("common.continue", "Продолжить")
    ∷ []
